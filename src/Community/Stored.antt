-- ===== src/Community/Stored.antt =====
-- What the database holds after a page, when it takes the write and when it does not.
use mathlib.Core.Path.{subst}
use session_cli.Base.{
  ℕ, ◌≡◌, refl, sym, Bool, true, false, not, ◌||◌, ◌⊎◌, List, [], ◌∷◌, map, Option, none, some,
  Result, ok, err, arith, if◌then◌else◌, Result-cases, Option-cases, inl, inr,
}
use session_cli.Base.Assoc
use session_cli.Base.Int.{ℤ, ltb_ℤ, ◌≤ℤ◌}
use session_cli.Base.Text.{Text, text_eq, text_eq_iff, text_eq_refl}
use session_cli.Community.Save.{
  saving_messages, update_sync_state, write, save_sorted, store, save_messages_and_sync_state,
}
use session_cli.Community.Worker.{poll, Worker, Server, since, load_limit, save_failed, step}
use session_cli.Community.{Db, SaveMessage, Sorted, is_empty, maximum, sort_messages}
use session_cli.Sogs.{MessageOrDelete}
use session_cli.SyncState.{
  CommunityMessageSyncState, get_community_message_sync_state, save_community_message_sync_state,
}

get-save_state :
    (id : Text) (s : CommunityMessageSyncState) (states : List (Text × CommunityMessageSyncState))
    → get_community_message_sync_state id (save_community_message_sync_state id s states) ≡ some s
unfolding get_community_message_sync_state save_community_message_sync_state
get-save_state id s states =
    rw (Assoc.lookup-replace text_eq text_eq_iff id id s states) (rw (text_eq_refl id))

maximum-some {ℓ} :
    {C : Type ℓ} (xs : List (SaveMessage C)) {m : ℤ}
    → maximum (map (λ x. x.seq) xs) ≡ some m
    → is_empty xs ≡ false
unfolding maximum
maximum-some [] h = cc
maximum-some (x ∷ xs) h = refl

module _ {ℓ κ} {C : Type ℓ} (F : Type κ) (id : Text) where
  write-stored :
      (sorted : Sorted C) (s : CommunityMessageSyncState) (db : Db C)
      → (not (is_empty sorted.save_messages) || not (is_empty sorted.delete_messages)) ≡ true
      → get_community_message_sync_state id (write {F = F} id none sorted s db).db.sync_states
        ≡ some (write {F = F} id none sorted s db).sync_state
  unfolding write store
  write-stored sorted s db h = ground (arith, get-save_state id s db.sync_states)

module _ {ℓ κ} {C : Type ℓ} {F : Type κ} (id : Text) where
  save_sorted_fault :
      (f : F) (sorted : Sorted C) (db : Db C) (s : CommunityMessageSyncState) (latest : ℤ)
      → maximum (map (λ m. m.seq) sorted.save_messages) ≡ some latest
      → save_sorted id (some f) sorted false true db s ≡ record {
        db = db;
        sync_state = record s { latest_seq = latest };
        result = err (saving_messages f);
      }
  unfolding save_sorted
  save_sorted_fault f sorted db s latest h = ground (arith, maximum-some sorted.save_messages h)

  save_sorted-write :
      (fault : Option F) (sorted : Sorted C) (e l : Bool) (db : Db C)
      (s : CommunityMessageSyncState) (n : ℕ)
      → (save_sorted id fault sorted e l db s).result ≡ ok n
      → (s' : CommunityMessageSyncState) × (save_sorted id fault sorted e l db s
          ≡ write id fault sorted s' db)
  unfolding save_sorted
  save_sorted-write fault sorted e l db s n r =
      elim (Result-cases (update_sync_state {F = F} e l sorted.save_messages s)) [
        | inl (s', p) ↦ (s', rw (p, save_sorted))
        | inr (x, p) ↦ ground arith
      ]

  -- What a page that was saved leaves in memory is what it leaves in the database.
  save_sorted-stored :
      (sorted : Sorted C) (e l : Bool) (db : Db C) (s : CommunityMessageSyncState) (n : ℕ)
      → (not (is_empty sorted.save_messages) || not (is_empty sorted.delete_messages)) ≡ true
      → (save_sorted {F = F} id none sorted e l db s).result ≡ ok n
      → get_community_message_sync_state id
          (save_sorted {F = F} id none sorted e l db s).db.sync_states
        ≡ some (save_sorted {F = F} id none sorted e l db s).sync_state
  save_sorted-stored sorted e l db s n wrote r =
      let (s', p) = save_sorted-write none sorted e l db s n r in
      rw p (write-stored F id sorted s' db wrote)

-- Every element is at most the maximum, and the maximum is at least what all elements are.
abbrev pub AllSeqs {ℓ} : {C : Type ℓ} → (ℤ → Type 0) → List (SaveMessage C) → Type 0
AllSeqs P [] = Unit
AllSeqs P (x ∷ xs) = P x.seq × AllSeqs P xs

maximum_cons : (x : ℤ) (xs : List ℤ) → (m : ℤ) × (maximum (x ∷ xs) ≡ some m) × (x ≤ℤ m)
unfolding maximum
maximum_cons x xs = elim (Option-cases (maximum xs)) [
  | inl e ↦ (x, rw e, omega arith)
  | inr (m, e) ↦ ((if ltb_ℤ m x then x else m), rw e, ground arith)
]

module _ {ℓ} {C : Type ℓ} where
  AllSeqs-weaken :
      (a b : ℤ) (xs : List (SaveMessage C))
      → a ≤ℤ b
      → AllSeqs (λ s. s ≤ℤ a) xs
      → AllSeqs (λ s. s ≤ℤ b) xs
  AllSeqs-weaken a b [] le h = tt
  AllSeqs-weaken a b (x ∷ xs) le h = (omega arith, AllSeqs-weaken a b xs le h.1)

  seqs-le-maximum :
      (xs : List (SaveMessage C)) (m : ℤ)
      → maximum (map (λ x. x.seq) xs) ≡ some m
      → AllSeqs (λ s. s ≤ℤ m) xs
  unfolding maximum
  seqs-le-maximum [] m h = tt
  seqs-le-maximum (x ∷ xs) m h = elim (Option-cases (maximum (map (λ y. y.seq) xs))) [
    | inl e ↦ (ground arith, none_seqs xs m e)
    | inr (k, e) ↦ (ground arith, AllSeqs-weaken k m xs (ground arith) (seqs-le-maximum xs k e))
  ]
    where
      none_seqs :
          (ys : List (SaveMessage C)) (n : ℤ)
          → maximum (map (λ y. y.seq) ys) ≡ none
          → AllSeqs (λ s. s ≤ℤ n) ys
      none_seqs [] n e = tt
      none_seqs (y ∷ ys) n e = ground arith

module _ {ℓ κ} {C : Type ℓ} {F : Type κ} (id : Text) where
  save_sorted-latest :
      (fault : Option F) (sorted : Sorted C) (db : Db C) (s : CommunityMessageSyncState) (m : ℤ)
      → maximum (map (λ x. x.seq) sorted.save_messages) ≡ some m
      → (save_sorted id fault sorted false true db s).sync_state.latest_seq ≡ m
  unfolding save_sorted
  save_sorted-latest fault sorted db s m h = ground (arith, maximum-some sorted.save_messages h)

List-cases {ℓ} : {A : Type ℓ} (xs : List A) → (xs ≡ []) ⊎ ((x : A) × (ys : List A) × (xs ≡ x ∷ ys))
List-cases [] = inl refl
List-cases (x ∷ xs) = inr (x, xs, refl)

module _ {ℓ κ} {C : Type ℓ} (F : Type κ) (id : Text) where
  save_sorted-ok :
      (sorted : Sorted C) (db : Db C) (s : CommunityMessageSyncState)
      → (n : ℕ) × ((save_sorted {F = F} id none sorted false true db s).result ≡ ok n)
  unfolding save_sorted
  save_sorted-ok sorted db s =
      elim (Result-cases (save_sorted {F = F} id none sorted false true db s).result) [
        | inl p ↦ p
        | inr (x, p) ↦ elim (List-cases sorted.save_messages) [
          | inl e ↦ ground arith
          | inr (y, ys, e) ↦
              let (m, found, _) = maximum_cons y.seq (map (λ z. z.seq) ys) in ground arith
        ]
      ]

module _ {ℓ κ μ} {C : Type ℓ} {E : Type κ} {F : Type μ} (decode : List ℕ → Result E C)
    (id : Text) where
  -- A poll whose page holds a decoded message, and which the database then refuses to write: nothing
  -- is stored and the error is reported, and yet the worker goes on from the greatest sequence number
  -- of the decoded messages, which none of them exceeds.
  pub poll_fault :
      (server : Server F) (f : F) (w : Worker C F) (page : List (MessageOrDelete (List ℕ)))
      (latest : ℤ)
      → server (since w.sync_state.latest_seq load_limit) ≡ ok page
      → maximum (map (λ m. m.seq) (sort_messages decode id page).save_messages) ≡ some latest
      → (step decode id (poll server (some f)) w ≡ record w {
        sync_state = record (w.sync_state) { latest_seq = latest };
        reported = save_failed (saving_messages f) ∷ w.reported;
      })
        × AllSeqs (λ s. s ≤ℤ latest) (sort_messages decode id page).save_messages
  unfolding step save_messages_and_sync_state
  poll_fault server f w page latest e m = (
    ground
        (arith, save_sorted_fault id f (sort_messages decode id page) w.db w.sync_state latest m),
    seqs-le-maximum (sort_messages decode id page).save_messages latest m,
  )

  -- After a poll whose page holds a decoded message every decoded message of the page has a sequence
  -- number of at most the one that the next poll asks from.
  pub poll_reaches :
      (server : Server F) (fault : Option F) (w : Worker C F)
      (page : List (MessageOrDelete (List ℕ))) (x : SaveMessage C) (xs : List (SaveMessage C))
      → server (since w.sync_state.latest_seq load_limit) ≡ ok page
      → (sort_messages decode id page).save_messages ≡ x ∷ xs
      → AllSeqs (λ s. s ≤ℤ (step decode id (poll server fault) w).sync_state.latest_seq) (x ∷ xs)
  unfolding step save_messages_and_sync_state
  poll_reaches server fault w page x xs e h =
      let sorted = sort_messages decode id page in
      let (m, found, _) = maximum_cons x.seq (map (λ y. y.seq) xs) in
      let reached : (step decode id (poll server fault) w).sync_state.latest_seq ≡ m =
        ground (arith, save_sorted-latest id fault sorted w.db w.sync_state m (rw h found)) in
      subst (λ k. AllSeqs (λ s. s ≤ℤ k) (x ∷ xs)) (sym reached) (seqs-le-maximum (x ∷ xs) m found)

  -- A poll that brings a message or a deletion, and that the database takes, leaves the same sync
  -- state in memory and in the database.
  pub poll-stored :
      (server : Server F) (w : Worker C F) (page : List (MessageOrDelete (List ℕ)))
      → server (since w.sync_state.latest_seq load_limit) ≡ ok page
      → (not (is_empty (sort_messages decode id page).save_messages)
          || not (is_empty (sort_messages decode id page).delete_messages))
        ≡ true
      → get_community_message_sync_state id (step decode id (poll server none) w).db.sync_states
        ≡ some (step decode id (poll server none) w).sync_state
  unfolding step save_messages_and_sync_state
  poll-stored server w page e h =
      let sorted = sort_messages decode id page in
      let (n, p) = save_sorted-ok F id sorted w.db w.sync_state in
      ground (arith, save_sorted-stored {F = F} id sorted false true w.db w.sync_state n h p)
