-- ===== src/SyncState.antt =====
-- libsession-ui-core/src/db/message_sync_state.rs: how far the messages of a community, and of a
-- swarm node, were read.
use session_cli.Base.{ℕ, Bool, true, ◌&&◌, ◌≡◌, ◌↔◌, List, Option, arith}
use session_cli.Base.Assoc
use session_cli.Base.Int.{ℤ, int_eq, int_eq_iff}
use session_cli.Base.Text.{Text, text_eq, text_eq_iff}

pub record CommunityMessageSyncState : Type 0 where
  pub has_earlier_messages : Bool
  pub earliest_message_id : ℕ
  pub latest_seq : ℤ

-- Rows by `community_id`.
abbrev pub CommunityStates : Type 0
CommunityStates = List (Text × CommunityMessageSyncState)

unfoldable pub get_community_message_sync_state :
    Text → CommunityStates → Option CommunityMessageSyncState
get_community_message_sync_state id states = Assoc.lookup text_eq id states

unfoldable pub save_community_message_sync_state :
    Text → CommunityMessageSyncState → CommunityStates → CommunityStates
save_community_message_sync_state id state states = Assoc.replace text_eq id state states

-- The primary key of `swarm_message_sync_state`.
pub record SwarmKey : Type 0 where
  pub session_id : Text
  pub namespace : ℤ
  pub node_public_key : Text

abbrev pub same_key : SwarmKey → SwarmKey → Bool
same_key a b =
    text_eq a.session_id b.session_id
    && int_eq a.namespace b.namespace
    && text_eq a.node_public_key b.node_public_key

pub record SwarmMessageSyncState : Type 0 where
  pub last_synced_hash : Text

abbrev pub SwarmStates : Type 0
SwarmStates = List (SwarmKey × SwarmMessageSyncState)

unfoldable pub get_swarm_message_sync_state : SwarmKey → SwarmStates → Option SwarmMessageSyncState
get_swarm_message_sync_state key states = Assoc.lookup same_key key states

unfoldable pub save_swarm_message_sync_state :
    SwarmKey → SwarmMessageSyncState → SwarmStates → SwarmStates
save_swarm_message_sync_state key state states = Assoc.replace same_key key state states

pub same_key_iff : (a b : SwarmKey) → (same_key a b ≡ true) ↔ (a ≡ b)
same_key_iff a b = ground (
  arith,
  text_eq_iff a.session_id b.session_id,
  int_eq_iff a.namespace b.namespace,
  text_eq_iff a.node_public_key b.node_public_key,
)
