-- ===== src/SendQueue/Uploads.antt =====
-- What an attempt leaves of the attachments.
use session_cli.Base.{
  ℕ, ◌≡◌, refl, sym, ap, ◌∙◌, true, false, ◌||◌, List, [], ◌∷◌, ◌++◌, map, none, some, Result, ok,
  arith, ◌==◌, ==_iff, ◌≢◌, ◌⊎◌, inl, inr, Bool-cases, Option-cases,
}
use session_cli.Base.Assoc.{lookup}
use session_cli.Messages.{Message, Row}
use session_cli.Messages.Save.{rows-save}
use session_cli.SendQueue.{
  AttachmentPointer, Content, PendingMessage, Database, SendError, Environment, one_of,
  insert_by_id, sort_by_id, without, delete_pending_attachments, upload_one, upload_all,
  with_attachments, finish_uploads, upload_attachments,
}

abbrev pub ids_of : List AttachmentPointer → List ℕ
ids_of ps = map (λ (p : AttachmentPointer). p.id) ps

true_ne_false : true ≢ false
true_ne_false e = cc

pub List-cases : (xs : List ℕ) → (xs ≡ []) ⊎ ((x : ℕ) × ((ys : List ℕ) × (xs ≡ x ∷ ys)))
List-cases [] = inl refl
List-cases (x ∷ xs) = inr (x, (xs, refl))

one_of-append : (n : ℕ) (xs ys : List ℕ) → one_of n (xs ++ ys) ≡ (one_of n xs || one_of n ys)
one_of-append n [] ys = refl
one_of-append n (x ∷ xs) ys = ground (arith, one_of-append n xs ys)

ids-append : (ps qs : List AttachmentPointer) → ids_of (ps ++ qs) ≡ ids_of ps ++ ids_of qs
ids-append [] qs = refl
ids-append (p ∷ ps) qs = ap (◌∷◌ p.id) (ids-append ps qs)

one_of-insert :
    (n : ℕ) (p : AttachmentPointer) (ps : List AttachmentPointer)
    → one_of n (ids_of (insert_by_id p ps)) ≡ (n == p.id || one_of n (ids_of ps))
unfolding insert_by_id
one_of-insert n p [] = refl
one_of-insert n p (q ∷ qs) = ground (arith, one_of-insert n p qs)

one_of-sort :
    (n : ℕ) (ps : List AttachmentPointer) → one_of n (ids_of (sort_by_id ps)) ≡ one_of n (ids_of ps)
unfolding sort_by_id
one_of-sort n [] = refl
one_of-sort n (p ∷ ps) = ground (arith, one_of-insert n p (sort_by_id ps), one_of-sort n ps)

without-nil :
    (uploaded ids : List ℕ) (n : ℕ)
    → without uploaded ids ≡ []
    → one_of n ids ≡ true
    → one_of n uploaded ≡ true
unfolding without
without-nil uploaded [] n e h = ground (arith, h)
without-nil uploaded (x ∷ xs) n e h = elim (Bool-cases (one_of x uploaded)) [
  | inr u ↦ ground (arith, u, e)
  | inl u ↦ elim (Bool-cases (n == x)) [
    | inl s ↦ ap (λ k. one_of k uploaded) ((==_iff n x).0 s) ∙ u
    | inr s ↦ ground (arith, u, e, s, h, without-nil uploaded xs n)
  ]
]

lookup-delete :
    (uploaded : List ℕ) (n : ℕ) (rows : List (ℕ × List ℕ))
    → one_of n uploaded ≡ true
    → lookup ◌==◌ n (delete_pending_attachments uploaded rows) ≡ none
unfolding delete_pending_attachments lookup
lookup-delete uploaded n [] h = refl
lookup-delete uploaded n ((i, c) ∷ rows) h = elim (Bool-cases (i == n)) [
  | inl s ↦
      let u : one_of i uploaded ≡ true = ap (λ k. one_of k uploaded) ((==_iff i n).0 s) ∙ h in
      ground (arith, u, lookup-delete uploaded n rows h)
  | inr s ↦ ground (arith, s, lookup-delete uploaded n rows h)
]

module _ {ℓ} {B : Type ℓ} where
  module _ (env : Environment B) where
    upload_one-id :
        (rows : List (ℕ × List ℕ)) (id : ℕ) (p : AttachmentPointer)
        → upload_one env rows id ≡ some p
        → p.id ≡ id
    unfolding upload_one
    upload_one-id rows id p h = ground (arith, h)

    one_of-upload_all :
        (rows : List (ℕ × List ℕ)) (ids : List ℕ) (n : ℕ) (p : AttachmentPointer)
        → one_of n ids ≡ true
        → upload_one env rows n ≡ some p
        → one_of n (ids_of (upload_all env rows ids)) ≡ true
    unfolding upload_all
    one_of-upload_all rows [] n p h u = ground (arith, h)
    one_of-upload_all rows (x ∷ xs) n p h u = elim (Bool-cases (n == x)) [
      | inl s ↦
          let here : upload_one env rows x ≡ some p =
            ap (upload_one env rows) (sym ((==_iff n x).0 s)) ∙ u in
          ground (arith, here, s, upload_one-id rows x p here)
      | inr s ↦ elim (Option-cases (upload_one env rows x)) [
        | inl o ↦ ground (arith, o, s, h, one_of-upload_all rows xs n p (ground (arith, s, h)) u)
        | inr (q, o) ↦
            ground (arith, o, s, h, one_of-upload_all rows xs n p (ground (arith, s, h)) u)
      ]
    ]

    finishes :
        (p : PendingMessage B) (db : Database B) (old : List AttachmentPointer) (id : ℕ)
        (ids : List ℕ)
        → p.message.content.data_message ≡ some old
        → p.pending_attachment_ids ≡ id ∷ ids
        → let new = upload_all env db.attachments (id ∷ ids) in
          upload_attachments env p db
          ≡ finish_uploads env (with_attachments env old new p.message) (ids_of new) (id ∷ ids) db
    unfolding upload_attachments
    finishes p db old id ids d e = rw (upload_attachments, d, e)

    -- The rows that a database had stay, in place.
    abbrev pub KeepsRows : Database B → Database B → Type ℓ
    KeepsRows db after =
        (new : List (Row (Content B))) × (after.messages.rows ≡ db.messages.rows ++ new)

    finish-forgets :
        (m : Message (Content B)) (uploaded ids : List ℕ) (db : Database B) (n : ℕ)
        → one_of n uploaded ≡ true
        → env.save_fault ≡ false
        → env.delete_fault ≡ false
        → KeepsRows db (finish_uploads env m uploaded ids db).1
          × (lookup ◌==◌ n (finish_uploads env m uploaded ids db).1.attachments ≡ none)
    unfolding finish_uploads
    finish-forgets m [] ids db n h s f = absurd (true_ne_false (sym h))
    finish-forgets m (x ∷ xs) ids db n h s f = (
      rw (s, f) (rows-save (m ∷ []) db.messages),
      rw (s, f) (lookup-delete (x ∷ xs) n db.attachments h),
    )

    -- Where the database has no fault, an attempt that uploads an attachment of a message with data
    -- deletes it from the pending ones, and leaves every row of the table of messages as it was, in
    -- place, that of the message itself included, whether or not the other attachments are uploaded.
    pub upload_attachments-forgets :
        (p : PendingMessage B) (db : Database B) (old : List AttachmentPointer) (n : ℕ)
        (a : AttachmentPointer)
        → p.message.content.data_message ≡ some old
        → one_of n p.pending_attachment_ids ≡ true
        → upload_one env db.attachments n ≡ some a
        → env.save_fault ≡ false
        → env.delete_fault ≡ false
        → KeepsRows db (upload_attachments env p db).1
          × (lookup ◌==◌ n (upload_attachments env p db).1.attachments ≡ none)
    upload_attachments-forgets p db old n a d h u s f = elim (List-cases p.pending_attachment_ids) [
      | inl e ↦ absurd (true_ne_false (sym (ap (one_of n) (sym e) ∙ h)))
      | inr (id, (ids, e)) ↦
          let new = upload_all env db.attachments (id ∷ ids) in
          let m = with_attachments env old new p.message in
          let mine : one_of n (ids_of new) ≡ true =
            one_of-upload_all db.attachments (id ∷ ids) n a (ap (one_of n) (sym e) ∙ h) u in
          rw (finishes p db old id ids d e) (finish-forgets m (ids_of new) (id ∷ ids) db n mine s f)
    ]

    finish-all :
        (m : Message (Content B)) (uploaded ids : List ℕ) (db : Database B) (n : ℕ)
        {r : Message (Content B)}
        → (finish_uploads env m uploaded ids db).0 ≡ ok r
        → one_of n ids ≡ true
        → (r ≡ m) × (one_of n uploaded ≡ true)
    unfolding finish_uploads
    finish-all m uploaded ids db n e h = elim (List-cases (without uploaded ids)) [
      | inl w ↦ (ground (arith, e, w), without-nil uploaded ids n w h)
      | inr (x, (xs, w)) ↦ ground (arith, e, w)
    ]

    finish-message :
        (m : Message (Content B)) (uploaded ids : List ℕ) (db : Database B)
        (r : Message (Content B))
        → (finish_uploads env m uploaded ids db).0 ≡ ok r
        → r ≡ m
    unfolding finish_uploads
    finish-message m uploaded ids db r e = elim (List-cases (without uploaded ids)) [
      | inl w ↦ ground (arith, e, w)
      | inr (x, (xs, w)) ↦ ground (arith, e, w)
    ]

    -- An upload that succeeds has every pending attachment in the message.
    pub upload_attachments-all :
        (p : PendingMessage B) (db : Database B) (old : List AttachmentPointer) (n : ℕ)
        {r : Message (Content B)}
        → p.message.content.data_message ≡ some old
        → one_of n p.pending_attachment_ids ≡ true
        → (upload_attachments env p db).0 ≡ ok r
        → (atts : List AttachmentPointer) × ((r.content.data_message ≡ some atts)
            × (one_of n (ids_of atts) ≡ true))
    upload_attachments-all p db old n {r} d h e = elim (List-cases p.pending_attachment_ids) [
      | inl q ↦ absurd (true_ne_false (sym (ap (one_of n) (sym q) ∙ h)))
      | inr (id, (ids, q)) ↦
          let new = upload_all env db.attachments (id ∷ ids) in
          let m = with_attachments env old new p.message in
          let (same, mine) =
            finish-all m (ids_of new) (id ∷ ids) db n {r = r}
              (ap (λ (x : Result SendError (Message (Content B)) × Database B). x.0)
                  (sym (finishes p db old id ids d q))
                ∙ e)
              (ap (one_of n) (sym q) ∙ h) in
          (
            sort_by_id (old ++ new),
            (
              ap (λ (x : Message (Content B)). x.content.data_message) same,
              one_of-sort n (old ++ new)
                  ∙ ap (one_of n) (ids-append old new)
                  ∙ one_of-append n (ids_of old) (ids_of new)
                  ∙ ground (arith, mine),
            ),
          )
    ]

    -- An upload leaves the receiver.
    pub upload_attachments-receiver :
        (p : PendingMessage B) (db : Database B) (r : Message (Content B))
        → (upload_attachments env p db).0 ≡ ok r
        → r.receiver ≡ p.message.receiver
    unfolding upload_attachments
    upload_attachments-receiver p db r e = elim (Option-cases p.message.content.data_message) [
      | inl d ↦ ground (arith, d, e)
      | inr (old, d) ↦ elim (List-cases p.pending_attachment_ids) [
        | inl q ↦ ground (arith, d, q, e)
        | inr (id, (ids, q)) ↦
            let new = upload_all env db.attachments (id ∷ ids) in
            ap (λ (x : Message (Content B)). x.receiver)
              (finish-message (with_attachments env old new p.message) (ids_of new) (id ∷ ids) db r
                (ap (λ (x : Result SendError (Message (Content B)) × Database B). x.0)
                    (sym (finishes p db old id ids d q))
                  ∙ e))
      ]
    ]
