-- ===== src/Community.antt =====
-- libsession-ui-core/src/worker/community/download_community_messages.rs: the worker that downloads
-- the messages of one community.
-- The database is the tables that the worker writes. `with_transaction` (utils/sqlite/reactive.rs)
-- runs a closure that either commits or, on any fault of the database, is rolled back: the fault is
-- an argument. The decoder of a message's content is generated code: it is a parameter.
pub mod Save
pub mod Worker
pub mod Progress
pub mod Stored
mod Tests
use session_cli.Base.{
  ℕ, ◌+◌, Bool, true, false, not, ◌&&◌, ◌||◌, List, [], ◌∷◌, ◌++◌, map, Option, none, some, Result,
  ok, err, length, min, ltb, if◌then◌else◌,
}
use session_cli.Base.Decimal.{decimal}
use session_cli.Base.Int.{ℤ, pos, ltb_ℤ}
use session_cli.Base.Text.{Text}
use session_cli.Messages.{Message, Table, deleted, save_messages, update_message_delete_state}
use session_cli.Padding.{strip_message_padding}
use session_cli.Reactions.{CommunityMessageReaction, ReactionRow, save_community_message_reactions}
use session_cli.Sogs
use session_cli.Sogs.{MessageOrDelete, MessageReaction, Delete, map_data}
use session_cli.SyncState.{
  CommunityMessageSyncState, CommunityStates, save_community_message_sync_state,
}

pub record Db {ℓ} (C : Type ℓ) : Type ℓ where
  pub messages : Table C
  pub reactions : List ReactionRow
  pub sync_states : CommunityStates

-- `repo.with_transaction`
unfoldable pub with_transaction {ℓ κ} :
    {C : Type ℓ} {E : Type κ} → Option E → (Db C → Db C) → Db C → Result E (Db C)
with_transaction none f db = ok (f db)
with_transaction (some fault) f db = err fault

pub record SaveMessage {ℓ} (C : Type ℓ) : Type ℓ where
  pub seq : ℤ
  pub server_id : ℕ
  pub message : Message C

pub record SaveMessageReaction : Type 0 where
  pub msg_server_id : ℕ
  pub reaction_by_emoji : List (Text × MessageReaction)

-- The three vectors that the loop over the messages fills.
pub record Sorted {ℓ} (C : Type ℓ) : Type ℓ where
  pub save_messages : List (SaveMessage C)
  pub save_messages_reactions : List SaveMessageReaction
  pub delete_messages : List Delete

abbrev pub is_empty {ℓ} : {A : Type ℓ} → List A → Bool
is_empty [] = true
is_empty (_ ∷ _) = false

-- `Iterator::min` and `Iterator::max`
unfoldable pub minimum : List ℕ → Option ℕ
minimum [] = none
minimum (x ∷ xs) = elim (minimum xs) [ none ↦ some x | some m ↦ some (if ltb m x then m else x) ]

unfoldable pub maximum : List ℤ → Option ℤ
maximum [] = none
maximum (x ∷ xs) = elim (maximum xs) [ none ↦ some x | some m ↦ some (if ltb_ℤ m x then x else m) ]

module _ {ℓ κ} {C : Type ℓ} {E : Type κ} (decode : List ℕ → Result E C) (id : Text) where
  -- The row of a decoded message.
  abbrev pub to_save : Sogs.Message C → SaveMessage C
  to_save msg = record {
    seq = msg.seqno;
    server_id = msg.id;
    message = record {
      repository = id;
      server_id = some (decimal msg.id);
      content = msg.payload;
      sender = msg.sender_id;
      receiver = [];
      created_at = msg.posted;
      sent_at = some msg.posted;
      expiration_at = none;
    };
  }

  abbrev pub decoded : MessageOrDelete (List ℕ) → Result E (MessageOrDelete C)
  decoded = map_data (λ c. decode (strip_message_padding c))

  -- One round of the loop, before the later ones.
  abbrev add_message : Result E (MessageOrDelete C) → Sorted C → Sorted C
  add_message (ok (MessageOrDelete.message msg)) s = record s {
    save_messages = to_save msg ∷ s.save_messages;
    save_messages_reactions =
        record { msg_server_id = msg.id; reaction_by_emoji = msg.reaction_by_emoji }
        ∷ s.save_messages_reactions;
  }
  add_message (ok (MessageOrDelete.deleted d)) s = record s {
    delete_messages = d ∷ s.delete_messages;
  }
  add_message (err _) s = s

  unfoldable pub sort_messages : List (MessageOrDelete (List ℕ)) → Sorted C
  sort_messages [] = record {
    save_messages = [];
    save_messages_reactions = [];
    delete_messages = [];
  }
  sort_messages (m ∷ ms) = add_message (decoded m) (sort_messages ms)
