-- ===== src/SyncMessages.antt =====
-- libsession-ui-core/src/worker/sync_messages.rs: the loop that polls a swarm for messages and stores
-- them, beside the messages that come by a push, the side channel.
-- The decoder of payloads is libsession's, a parameter; the polls are Swarm's, the table is that of
-- Messages. The two loops run side by side: an event is one poll, or one batch of the side channel.
pub mod Closure
pub mod Stored
mod Tests
use session_cli.Base.{
  ℕ, Bool, true, false, not, ◌&&◌, List, [], ◌∷◌, Option, none, some, Result, ok, err, ◌>>=◌,
  if◌then◌else◌,
}
use session_cli.Base.Int.{ℤ}
use session_cli.Base.Text.{Text, eq_ignore_ascii_case}
use session_cli.Messages.{Message, Table, save_messages}
use session_cli.Swarm.{SwarmMessage, Environment, Repository, Polled, poll_swarm_messages_once}

-- A content: the sync target of its data message, where it has one, and the rest.
pub record SyncedContent {ℓ} (B : Type ℓ) : Type ℓ where
  pub sync_target : Option Text
  pub body : B

-- `RegularMessage`
pub record RegularMessage {ℓ} (B : Type ℓ) : Type ℓ where
  pub sender : Text
  pub content : SyncedContent B
  pub timestamp : ℕ

-- A poll or a batch of the side channel, with the fault that the database meets in saving.
pub data SyncEvent {κ μ} (S : Type μ) (E : Type κ) : Type (κ ⊔ μ) where
  polled : Environment S E → Option E → SyncEvent S E
  side_channel : Option E → List SwarmMessage → SyncEvent S E

module _ {ℓ κ} {B : Type ℓ} {E : Type κ} (session_id : Text)
    (decode_and_decrypt : List ℕ → Result E (RegularMessage B)) where
  abbrev pub sender_of : Text → Text
  sender_of sender = if eq_ignore_ascii_case session_id sender then [] else sender

  abbrev pub receiver_of : Option Text → Text
  receiver_of none = []
  receiver_of (some c) = if not (eq_ignore_ascii_case session_id c) then c else []

  unfoldable pub create_db_message : SwarmMessage → Result E (Message (SyncedContent B))
  create_db_message m = do
    regular ← decode_and_decrypt m.data_of
    ok (record {
      repository = session_id;
      server_id = some m.hash;
      content = regular.content;
      sender = sender_of regular.sender;
      receiver = receiver_of regular.content.sync_target;
      created_at = regular.timestamp;
      sent_at = some m.sent;
      expiration_at = some m.expiration;
    })

  -- `filter_map(… .ok())`
  unfoldable pub db_messages : List SwarmMessage → List (Message (SyncedContent B))
  unfolding create_db_message
  db_messages [] = []
  db_messages (m ∷ ms) = elim (create_db_message m) [
    | err _ ↦ db_messages ms
    | ok d ↦ d ∷ db_messages ms
  ]

  -- The closure, for a fault of the database, which is met where there is something to save.
  unfoldable pub save_swarm_messages :
      Option E → List SwarmMessage → Table (SyncedContent B) → Result E (Table (SyncedContent B))
  unfolding db_messages
  save_swarm_messages fault messages table = elim (db_messages messages) [
    | [] ↦ ok table
    | d ∷ ds ↦ elim fault [ some e ↦ err e | none ↦ ok (save_messages (d ∷ ds) table) ]
  ]

  module _ {μ} {S : Type μ} (ns : ℤ) where
    -- The errors of polls are reported, and the loop goes on; one of the side channel ends both loops.
    unfoldable pub sync_regular_messages :
        List (SyncEvent S E)
        → Repository (Table (SyncedContent B))
        → Result E (Unit {0}) × Repository (Table (SyncedContent B))
    unfolding save_swarm_messages
    sync_regular_messages [] repo = (ok tt, repo)
    sync_regular_messages (polled env fault ∷ events) repo =
        sync_regular_messages events
          (poll_swarm_messages_once session_id ns (save_swarm_messages fault) env repo).repo
    sync_regular_messages (side_channel fault messages ∷ events) repo =
        elim (save_swarm_messages fault messages repo.stored) [
          | err e ↦ (err e, repo)
          | ok stored ↦ sync_regular_messages events (record repo { stored = stored })
        ]
