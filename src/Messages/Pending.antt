-- ===== src/Messages/Pending.antt =====
-- What `get_pending_message_query` selects.
use session_cli.Base.{◌≡◌, refl, false, List, [], ◌∷◌, Option, none, some, arith}
use session_cli.Base.Text.{Text, codes, text_eq}
use session_cli.Messages.{
  MessageSyncState, queued, permanently_failed, failed, as_ref, Row, is_state, is_pending,
  get_pending_messages,
}

not_queued : (s : Option MessageSyncState) → is_state s (codes "QUEUED") ≡ false
unfolding as_ref text_eq
not_queued none = refl
not_queued (some queued) = refl
not_queued (some permanently_failed) = refl
not_queued (some failed) = refl

-- The query for pending messages selects no row of any table: it compares the states with the text
-- QUEUED, and the states are stored as Queued, PermanentlyFailed or Failed.
pub get_pending_messages_empty {ℓ} :
    {C : Type ℓ} (repository : Text) (rows : List (Row C))
    → get_pending_messages repository rows ≡ []
unfolding get_pending_messages is_pending
get_pending_messages_empty repository [] = refl
get_pending_messages_empty repository (r ∷ rs) = ground (
  arith,
  not_queued r.send_state,
  not_queued r.sync_state,
  get_pending_messages_empty repository rs,
)
