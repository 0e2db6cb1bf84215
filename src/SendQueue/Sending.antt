-- ===== src/SendQueue/Sending.antt =====
-- What an attempt sends.
use session_cli.Base.{
  ℕ, ◌+◌, ◌≡◌, refl, sym, ap, ◌∙◌, true, List, ◌∷◌, Option, none, some, Result, ok, err, arith, inl,
  inr, Option-cases, Result-cases, length,
}
use session_cli.Base.Text.{Text}
use session_cli.Key.{HexCodec, from_hex, KeyError}
use session_cli.Messages.{Message, MessageSyncState}
use session_cli.SendQueue.{
  AttachmentPointer, Content, PendingMessage, Database, SendError, Environment, one_of, is_queued,
  upload_attachments, send_to_other, send_and_sync_message, or_result, sync_to_ours, void,
}
use session_cli.SendQueue.Uploads.{
  upload_attachments-all, upload_attachments-receiver, ids_of, List-cases,
}

module _ {ℓ} {B : Type ℓ} (env : Environment B) (codec : HexCodec) where
  send_to_other-ok :
      (st : Option MessageSyncState) (r : Result SendError (Message (Content B))) (c : Content B)
      → (send_to_other env codec st r).1 ≡ some c
      → (is_queued st ≡ true) × ((m : Message (Content B)) × ((r ≡ ok m) × (m.content ≡ c)))
  unfolding send_to_other
  send_to_other-ok st (err e) c h = ground (arith, h)
  send_to_other-ok st (ok m) c h = (ground (arith, h), (m, (refl, ground (arith, h))))

  -- What is given to the executor for a message with data is given for a queued message, after all its
  -- pending attachments were uploaded, and has a pointer to each of them.
  pub sent-attachments :
      (p : PendingMessage B) (db : Database B) (c : Content B) (old : List AttachmentPointer)
      (n : ℕ)
      → (send_and_sync_message env codec p db).sent ≡ some c
      → p.message.content.data_message ≡ some old
      → one_of n p.pending_attachment_ids ≡ true
      → (is_queued p.send_state ≡ true)
        × ((atts : List AttachmentPointer) × ((c.data_message ≡ some atts)
              × (one_of n (ids_of atts) ≡ true)))
  unfolding send_and_sync_message
  sent-attachments p db c old n h d o =
      let (q, (m, (e, same))) = send_to_other-ok p.send_state (upload_attachments env p db).0 c h in
      let (atts, (has, mine)) = upload_attachments-all env p db old n {r = m} d o e in
      (q, (atts, (ap (λ (x : Content B). x.data_message) (sym same) ∙ has, mine)))

  unkeyed :
      (s : Text)
      → ((t : Text) (k : ℕ) (b : List ℕ) → codec.decode_to_slice t k ≡ some b → length t ≡ k + k)
      → length s ≡ 66
      → from_hex codec 32 s ≡ err KeyError.decoding_hex
  unfolding from_hex
  unkeyed s twice n = elim (Option-cases (codec.decode_to_slice s 32)) [
    | inl e ↦ rw e refl
    | inr (b, e) ↦ absurd (omega (arith, twice s 32 b e, n))
  ]

  unsent :
      (st : Option MessageSyncState) (m : Message (Content B))
      → ((t : Text) (k : ℕ) (b : List ℕ) → codec.decode_to_slice t k ≡ some b → length t ≡ k + k)
      → length m.receiver ≡ 66
      → (send_to_other env codec st (ok m)).1 ≡ none
  unfolding send_to_other
  unsent st m twice n = elim (List-cases m.receiver) [
    | inl e ↦ ground (arith, e)
    | inr (c, (cs, e)) ↦
        let u : from_hex codec 32 (c ∷ cs) ≡ err KeyError.decoding_hex =
          ap (from_hex codec 32) (sym e) ∙ unkeyed m.receiver twice n in
        ground (arith, e, u)
  ]

  failed_unsent :
      (st : Option MessageSyncState) (x : SendError) → (send_to_other env codec st (err x)).1 ≡ none
  unfolding send_to_other
  failed_unsent st x = ground arith

  always_ok :
      (r : Result SendError (Unit {0})) (st : Option MessageSyncState)
      → or_result r (sync_to_ours st) ≡ ok tt
  always_ok (ok _) st = refl
  always_ok (err e) st = ground arith

  -- The crate `hex` fills a buffer only from a text of twice its length. So a message whose receiver
  -- is a session id, whose text has 66 characters, is never sent, and the attempt has no error all
  -- the same.
  pub receiver_unsent :
      (p : PendingMessage B) (db : Database B)
      → ((s : Text) (k : ℕ) (b : List ℕ) → codec.decode_to_slice s k ≡ some b → length s ≡ k + k)
      → length p.message.receiver ≡ 66
      → ((send_and_sync_message env codec p db).sent ≡ none)
        × ((send_and_sync_message env codec p db).result ≡ ok tt)
  unfolding send_and_sync_message
  receiver_unsent p db twice n = (
    elim (Result-cases (upload_attachments env p db).0) [
      | inl (m, e) ↦
          ap (λ r. (send_to_other env codec p.send_state r).1) e
          ∙ unsent p.send_state m twice (ap length (upload_attachments-receiver env p db m e) ∙ n)
      | inr (x, e) ↦
          ap (λ r. (send_to_other env codec p.send_state r).1) e ∙ failed_unsent p.send_state x
    ],
    always_ok
        (or_result (void (upload_attachments env p db).0)
          (send_to_other env codec p.send_state (upload_attachments env p db).0).0)
        p.send_state,
  )
