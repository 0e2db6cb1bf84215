-- ===== src/SendQueue/Tests.antt =====
-- Witnesses for the theorems on sending: a message with two attachments, of which one can be uploaded.
use session_cli.Base.{
  ℕ, ◌+◌, ◌≡◌, refl, Bool, true, false, List, [], ◌∷◌, none, some, ok, ◌==◌, replicate,
  if◌then◌else◌, ◌||◌,
}
use session_cli.Base.Assoc.{lookup}
use session_cli.Base.Text.{Text}
use session_cli.Key.{from_hex}
use session_cli.Key.Example.{hex_codec, length-hex_codec}
use session_cli.Messages.{queued}
use session_cli.SendQueue.{
  AttachmentPointer, Content, PendingMessage, Database, Environment, one_of, upload_one, upload_all,
  sort_by_id, insert_by_id, finish_uploads, without, upload_attachments, send_to_other,
  send_and_sync_message,
}
use session_cli.SendQueue.Uploads.{KeepsRows, upload_attachments-forgets, ids_of}
use session_cli.SendQueue.Sending.{sent-attachments, receiver_unsent}

abbrev env : Bool → Environment ℕ
env both = record {
  read_fault = λ id. false;
  encrypt_aes_gcm = λ b. some (record { cipher = b; key = 1 ∷ [] });
  upload = λ id b. if both || id == 1 then some (id + 40) else none;
  file_url = λ id. some (id ∷ []);
  save_fault = false;
  delete_fault = false;
  encrypt_and_encode = λ c k. ok (c.other_content ∷ []);
  store_request = λ b. ok tt;
  execute = ok tt;
}

abbrev pending : Text → PendingMessage ℕ
pending receiver = record {
  message = record {
    repository = [];
    server_id = none;
    content = record { data_message = some []; other_content = 5 };
    sender = [];
    receiver = receiver;
    created_at = 3;
    sent_at = none;
    expiration_at = none;
  };
  pending_attachment_ids = 2 ∷ 1 ∷ [];
  send_state = some queued;
  sync_state = none;
}

abbrev db : Database ℕ
db = record {
  messages = record { rows = []; next_id = 1 };
  attachments = (1, 7 ∷ []) ∷ (2, 8 ∷ []) ∷ [];
}

upload_attachments-forgets_example :
    KeepsRows (env false) db (upload_attachments (env false) (pending []) db).1
    × (lookup ◌==◌ 1 (upload_attachments (env false) (pending []) db).1.attachments ≡ none)
unfolding upload_one lookup
upload_attachments-forgets_example =
    upload_attachments-forgets (env false) (pending []) db [] 1
      (record { id = 1; url = 41 ∷ []; key = 1 ∷ [] }) refl refl refl refl refl

abbrev peer : Text
peer = replicate 64 b'a'

abbrev sent_content : Content ℕ
sent_content = record {
  data_message = some (
      record { id = 1; url = 41 ∷ []; key = 1 ∷ [] }
      ∷ record { id = 2; url = 42 ∷ []; key = 1 ∷ [] }
      ∷ []);
  other_content = 5;
}

sent-attachments_example :
    (true ≡ true)
    × ((atts : List AttachmentPointer) × ((sent_content.data_message ≡ some atts)
          × (one_of 2 (ids_of atts) ≡ true)))
unfolding send_and_sync_message upload_attachments upload_all upload_one sort_by_id insert_by_id
    finish_uploads without send_to_other from_hex hex_codec lookup
sent-attachments_example =
    sent-attachments (env true) hex_codec (pending peer) db sent_content [] 2 refl refl refl

receiver_unsent_example :
    ((send_and_sync_message (env true) hex_codec (pending (replicate 66 b'a')) db).sent ≡ none)
    × ((send_and_sync_message (env true) hex_codec (pending (replicate 66 b'a')) db).result ≡ ok tt)
receiver_unsent_example =
    receiver_unsent (env true) hex_codec (pending (replicate 66 b'a')) db length-hex_codec refl
