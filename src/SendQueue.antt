-- ===== src/SendQueue.antt =====
-- libsession-ui-core/src/worker/send_swarm_messages.rs: `send_and_sync_message`, one attempt to upload
-- the attachments of a pending message and to send it to its receiver.
-- The database is the table of Messages and the pending attachments. A fault of the database, the
-- encryption of a file, the answers of the file server and of the swarm, and the joining of a url are
-- the environment's. The shared future runs once: its result is used twice.
pub mod Uploads
pub mod Sending
mod Tests
use session_cli.Base.{
  ℕ, Bool, true, false, not, ◌&&◌, ◌||◌, List, [], ◌∷◌, ◌++◌, map, Option, none, some, Result, ok,
  err, leb, ◌==◌, if◌then◌else◌,
}
use session_cli.Base.Assoc.{lookup}
use session_cli.Base.Text.{Text}
use session_cli.Key.{Key, HexCodec, from_hex}
use session_cli.Messages.{Message, MessageSyncState, queued, Table, save_messages}

-- `AttachmentPointer`, with the fields that are set.
pub record AttachmentPointer : Type 0 where
  pub id : ℕ
  pub url : Text
  pub key : List ℕ

-- A content: the attachments of its data message, where it has one, and the rest.
pub record Content {ℓ} (B : Type ℓ) : Type ℓ where
  pub data_message : Option (List AttachmentPointer)
  pub other_content : B

pub record PendingMessage {ℓ} (B : Type ℓ) : Type ℓ where
  pub message : Message (Content B)
  pub pending_attachment_ids : List ℕ
  pub send_state : Option MessageSyncState
  pub sync_state : Option MessageSyncState

-- The two tables; an attachment by its id.
pub record Database {ℓ} (B : Type ℓ) : Type ℓ where
  pub messages : Table (Content B)
  pub attachments : List (ℕ × List ℕ)

pub data SendError : Type 0 where
  database_fault not_all_uploaded invalid_receiver encode_fault request_fault rpc_fault : SendError

pub record Encrypted : Type 0 where
  pub cipher : List ℕ
  pub key : List ℕ

-- What an attempt meets.
pub record Environment {ℓ} (B : Type ℓ) : Type ℓ where
  pub read_fault : ℕ → Bool
  pub encrypt_aes_gcm : List ℕ → Option Encrypted
  pub upload : ℕ → List ℕ → Option ℕ
  pub file_url : ℕ → Option Text
  pub save_fault : Bool
  pub delete_fault : Bool
  pub encrypt_and_encode : Content B → Key → Result SendError (List ℕ)
  pub store_request : List ℕ → Result SendError (Unit {0})
  pub execute : Result SendError (Unit {0})

abbrev pub one_of : ℕ → List ℕ → Bool
one_of n [] = false
one_of n (x ∷ xs) = n == x || one_of n xs

-- `sort_by_key(|p| p.id)`, which is stable
unfoldable pub insert_by_id : AttachmentPointer → List AttachmentPointer → List AttachmentPointer
insert_by_id p [] = p ∷ []
insert_by_id p (q ∷ qs) =
    let rest = insert_by_id p qs in if leb p.id q.id then p ∷ q ∷ qs else q ∷ rest

unfoldable pub sort_by_id : List AttachmentPointer → List AttachmentPointer
unfolding insert_by_id
sort_by_id [] = []
sort_by_id (p ∷ ps) = insert_by_id p (sort_by_id ps)

-- `retain(|id| !uploaded.contains(&id))`
unfoldable pub without : List ℕ → List ℕ → List ℕ
without ids [] = []
without ids (x ∷ xs) = let rest = without ids xs in if one_of x ids then rest else x ∷ rest

-- `delete_pending_attachments`
unfoldable pub delete_pending_attachments : List ℕ → List (ℕ × List ℕ) → List (ℕ × List ℕ)
delete_pending_attachments ids [] = []
delete_pending_attachments ids ((id, content) ∷ rows) =
    let rest = delete_pending_attachments ids rows in
    if one_of id ids then rest else (id, content) ∷ rest

abbrev pub is_empty : List ℕ → Bool
is_empty [] = true
is_empty (_ ∷ _) = false

abbrev pub is_queued : Option MessageSyncState → Bool
is_queued (some queued) = true
is_queued _ = false

module _ {ℓ} {B : Type ℓ} (env : Environment B) where
  -- One attachment: read, encrypted, uploaded, and its url joined; none where a step fails.
  unfoldable pub upload_one : List (ℕ × List ℕ) → ℕ → Option AttachmentPointer
  upload_one rows id = if env.read_fault id then none else elim (lookup ◌==◌ id rows) [
    | none ↦ none
    | some content ↦ elim (env.encrypt_aes_gcm content) [
      | none ↦ none
      | some enc ↦ elim (env.upload id enc.cipher) [
        | none ↦ none
        | some file_id ↦ elim (env.file_url file_id) [
          | none ↦ none
          | some url ↦ some (record { id = id; url = url; key = enc.key })
        ]
      ]
    ]
  ]

  unfoldable pub upload_all : List (ℕ × List ℕ) → List ℕ → List AttachmentPointer
  unfolding upload_one
  upload_all rows [] = []
  upload_all rows (id ∷ ids) =
      let rest = upload_all rows ids in
      elim (upload_one rows id) [ none ↦ rest | some p ↦ p ∷ rest ]

  abbrev pub uploaded_ids : List AttachmentPointer → List ℕ
  uploaded_ids ps = map (λ (p : AttachmentPointer). p.id) ps

  abbrev pub with_attachments :
      List AttachmentPointer → List AttachmentPointer → Message (Content B) → Message (Content B)
  with_attachments old new m = record m {
    content = record m.content { data_message = some (sort_by_id (old ++ new)) };
  }

  -- All are uploaded where no id is left.
  abbrev pub conclude : Message (Content B) → List ℕ → Result SendError (Message (Content B))
  conclude m [] = ok m
  conclude m (_ ∷ _) = err not_all_uploaded

  -- From the saving of the message on; without an upload nothing is deleted.
  unfoldable pub finish_uploads :
      Message (Content B)
      → List ℕ
      → List ℕ
      → Database B
      → Result SendError (Message (Content B)) × Database B
  unfolding without delete_pending_attachments
  finish_uploads m uploaded ids db =
      let saved = record db { messages = save_messages (m ∷ []) db.messages } in
      let cleaned = record saved {
        attachments = delete_pending_attachments uploaded db.attachments;
      } in
      if env.save_fault
      then (err database_fault, db)
      else if is_empty uploaded
      then (conclude m (without uploaded ids), saved)
      else if env.delete_fault
      then (err database_fault, saved)
      else (conclude m (without uploaded ids), cleaned)

  unfoldable pub upload_attachments :
      PendingMessage B → Database B → Result SendError (Message (Content B)) × Database B
  unfolding upload_all sort_by_id finish_uploads
  upload_attachments p db = elim p.message.content.data_message [
    | none ↦ (ok p.message, db)
    | some old ↦ elim p.pending_attachment_ids [
      | [] ↦ (ok p.message, db)
      | id ∷ ids ↦
          let new = upload_all db.attachments (id ∷ ids) in
          finish_uploads (with_attachments old new p.message) (uploaded_ids new) (id ∷ ids) db
    ]
  ]

  -- `send_to_other`, on the result of the upload: its result, and the content that the executor was
  -- given.
  unfoldable pub send_to_other :
      HexCodec
      → Option MessageSyncState
      → Result SendError (Message (Content B))
      → Result SendError (Unit {0}) × Option (Content B)
  send_to_other codec send_state (err e) =
      if is_queued send_state then (err e, none) else (ok tt, none)
  send_to_other codec send_state (ok m) =
      if not (is_queued send_state) then (ok tt, none) else elim m.receiver [
        | [] ↦ (ok tt, none)
        | c ∷ cs ↦ elim (from_hex codec 32 (c ∷ cs)) [
          | err _ ↦ (err invalid_receiver, none)
          | ok key ↦ elim (env.encrypt_and_encode m.content key) [
            | err e ↦ (err e, none)
            | ok encoded ↦ elim (env.store_request encoded) [
              | err e ↦ (err e, none)
              | ok _ ↦ (env.execute, some m.content)
            ]
          ]
        ]
      ]

-- `Result::or`
abbrev pub or_result {ℓ κ} : {T : Type ℓ} {E : Type κ} → Result E T → Result E T → Result E T
or_result (ok t) r = ok t
or_result (err _) r = r

-- `sync_to_ours`: both ways return without an error.
abbrev pub sync_to_ours : Option MessageSyncState → Result SendError (Unit {0})
sync_to_ours send_state = if not (is_queued send_state) then ok tt else ok tt

abbrev pub void {ℓ κ} : {T : Type ℓ} {E : Type κ} → Result E T → Result E (Unit {0})
void (ok _) = ok tt
void (err e) = err e

-- An attempt: its result, what was sent, and the database.
pub record Attempt {ℓ} (B : Type ℓ) : Type ℓ where
  pub result : Result SendError (Unit {0})
  pub sent : Option (Content B)
  pub database : Database B

unfoldable pub send_and_sync_message {ℓ} :
    {B : Type ℓ} → Environment B → HexCodec → PendingMessage B → Database B → Attempt B
unfolding upload_attachments send_to_other
send_and_sync_message env codec p db =
    let (uploaded, after) = upload_attachments env p db in
    let (send_result, sent) = send_to_other env codec p.send_state uploaded in
    record {
      result = or_result (or_result (void uploaded) send_result) (sync_to_ours p.send_state);
      sent = sent;
      database = after;
    }
