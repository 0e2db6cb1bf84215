-- ===== src/Community/Save.antt =====
-- `save_messages_and_sync_state`: a page of messages is written together with how far it reaches.
use session_cli.Base.{
  ℕ, Bool, not, ◌&&◌, ◌||◌, List, [], ◌∷◌, map, Option, Result, ok, err, ok_or, ◌>>=◌, length,
  if◌then◌else◌,
}
use session_cli.Base.Decimal.{decimal}
use session_cli.Base.Text.{Text}
use session_cli.Community.{
  Db, with_transaction, SaveMessage, SaveMessageReaction, Sorted, is_empty, minimum, maximum,
  sort_messages,
}
use session_cli.Messages.{Row, deleted, save_messages, update_message_delete_state}
use session_cli.Reactions.{CommunityMessageReaction, ReactionRow, save_community_message_reactions}
use session_cli.Sogs.{MessageOrDelete, MessageReaction}
use session_cli.SyncState.{CommunityMessageSyncState, save_community_message_sync_state}

pub data SaveError {ℓ} (F : Type ℓ) : Type ℓ where
  unable_to_find_earliest unable_to_find_latest : SaveError F
  saving_messages : F → SaveError F

-- The database and the worker's own sync state afterwards, and the number of messages saved.
pub record Saved {ℓ κ} (C : Type ℓ) (F : Type κ) : Type (ℓ ⊔ κ) where
  pub db : Db C
  pub sync_state : CommunityMessageSyncState
  pub result : Result (SaveError F) ℕ

abbrev stored_reaction : Text × MessageReaction → Text × CommunityMessageReaction
stored_reaction (emoji, r) =
    (emoji, record { index = r.index; count = r.count; reactors = r.reactors })

module _ {ℓ} {C : Type ℓ} where
  -- The two `if` blocks that move the sync state; it is moved in memory, before anything is written.
  unfoldable pub update_earliest {κ} :
      {F : Type κ}
      → Bool
      → List (SaveMessage C)
      → CommunityMessageSyncState
      → Result (SaveError F) CommunityMessageSyncState
  update_earliest wanted saves s =
      if wanted && not (is_empty saves)
      then (ok_or (minimum (map (λ m. m.server_id) saves)) unable_to_find_earliest >>= λ earliest.
          ok (record s {
            earliest_message_id = earliest;
            has_earlier_messages = not (is_empty saves);
          }))
      else ok s

  unfoldable pub update_latest {κ} :
      {F : Type κ}
      → Bool
      → List (SaveMessage C)
      → CommunityMessageSyncState
      → Result (SaveError F) CommunityMessageSyncState
  update_latest wanted saves s =
      if wanted && not (is_empty saves)
      then (ok_or (maximum (map (λ m. m.seq) saves)) unable_to_find_latest >>= λ latest.
          ok (record s { latest_seq = latest }))
      else ok s

  unfoldable pub update_sync_state {κ} :
      {F : Type κ}
      → Bool
      → Bool
      → List (SaveMessage C)
      → CommunityMessageSyncState
      → Result (SaveError F) CommunityMessageSyncState
  unfolding update_earliest update_latest
  update_sync_state earliest latest saves s = do
    s1 ← update_earliest earliest saves s
    update_latest latest saves s1

  unfoldable pub save_reactions :
      Text → List SaveMessageReaction → List (Row C) → List ReactionRow → List ReactionRow
  save_reactions id [] messages rs = rs
  save_reactions id (x ∷ xs) messages rs = save_reactions id xs messages (
      save_community_message_reactions id x.msg_server_id (map stored_reaction x.reaction_by_emoji)
        messages rs)

  -- The closure of the transaction.
  unfoldable pub store : Text → Sorted C → CommunityMessageSyncState → Db C → Db C
  store id sorted s db =
      let saved = save_messages (map (λ m. m.message) sorted.save_messages) db.messages in
      record {
        messages =
            update_message_delete_state (map (λ d. decimal d.id) sorted.delete_messages) deleted
              saved;
        reactions = save_reactions id sorted.save_messages_reactions saved.rows db.reactions;
        sync_states = save_community_message_sync_state id s db.sync_states;
      }

  -- The part behind the two `if` blocks.
  unfoldable pub write {κ} :
      {F : Type κ} → Text → Option F → Sorted C → CommunityMessageSyncState → Db C → Saved C F
  unfolding with_transaction
  write id fault sorted s db =
      if not (is_empty sorted.save_messages) || not (is_empty sorted.delete_messages)
      then elim (with_transaction fault (store id sorted s) db) [
        | ok db' ↦ record { db = db'; sync_state = s; result = ok (length sorted.save_messages) }
        | err e ↦ record { db = db; sync_state = s; result = err (saving_messages e) }
      ]
      else record { db = db; sync_state = s; result = ok 0 }

  unfoldable pub save_sorted {κ} :
      {F : Type κ}
      → Text
      → Option F
      → Sorted C
      → Bool
      → Bool
      → Db C
      → CommunityMessageSyncState
      → Saved C F
  unfolding write update_sync_state
  save_sorted {F} id fault sorted earliest latest db s =
      elim (update_sync_state {F = F} earliest latest sorted.save_messages s) [
        | ok s' ↦ write id fault sorted s' db
        | err e ↦ record { db = db; sync_state = s; result = err e }
      ]

  unfoldable pub save_messages_and_sync_state {κ μ} :
      {E : Type κ} {F : Type μ}
      → (List ℕ → Result E C)
      → Text
      → Option F
      → List (MessageOrDelete (List ℕ))
      → Bool
      → Bool
      → Db C
      → CommunityMessageSyncState
      → Saved C F
  unfolding save_sorted
  save_messages_and_sync_state decode id fault messages =
      save_sorted id fault (sort_messages decode id messages)
