-- ===== src/Dispatch.antt =====
-- The namespaces of the messages that are pushed, libsession-ui-core/src/oxenss/namespace.rs, and the
-- channels of a group that its commands are sent to, as in `handle_command` of
-- libsession-ui-core/src/worker/group/sync_group.rs.
-- A channel is the list of the batches in it. It takes one, and a sender waits where it is full:
-- `handle_one` is what a send does once there is room, and GroupKeys makes it wait until then.
use session_cli.Base.{Bool, true, false, List, [], ◌∷◌, ◌++◌}

-- libsession-ui-core/src/oxenss/namespace.rs
pub data MessageNamespace : Type 0 where
  user_messages contacts_config user_profile_config convo_info_volatile_config user_groups_config :
      MessageNamespace
  group_messages group_kicked_messages group_keys_config group_info_config group_member_config :
      MessageNamespace

-- `GroupCommand::SideChannelMessageReceived`
pub data GroupCommand {ℓ} (M : Type ℓ) : Type ℓ where
  side_channel_message_received : MessageNamespace → M → GroupCommand M

abbrev pub same_namespace : MessageNamespace → MessageNamespace → Bool
same_namespace user_messages user_messages = true
same_namespace contacts_config contacts_config = true
same_namespace user_profile_config user_profile_config = true
same_namespace convo_info_volatile_config convo_info_volatile_config = true
same_namespace user_groups_config user_groups_config = true
same_namespace group_messages group_messages = true
same_namespace group_kicked_messages group_kicked_messages = true
same_namespace group_keys_config group_keys_config = true
same_namespace group_info_config group_info_config = true
same_namespace group_member_config group_member_config = true
same_namespace _ _ = false

-- The channels of a group.
pub record GroupChannels {ℓ} (M : Type ℓ) : Type ℓ where
  pub messages : List M
  pub info : List M
  pub members : List M
  pub keys : List M
  pub kicked : List M

module _ {κ} {M : Type κ} where
  unfoldable pub handle_one : GroupCommand M → GroupChannels M → GroupChannels M
  handle_one (side_channel_message_received group_messages m) c = record c {
    messages = c.messages ++ m ∷ [];
  }
  handle_one (side_channel_message_received group_info_config m) c = record c {
    info = c.info ++ m ∷ [];
  }
  handle_one (side_channel_message_received group_member_config m) c = record c {
    members = c.members ++ m ∷ [];
  }
  handle_one (side_channel_message_received group_keys_config m) c = record c {
    keys = c.keys ++ m ∷ [];
  }
  handle_one (side_channel_message_received group_kicked_messages m) c = record c {
    kicked = c.kicked ++ m ∷ [];
  }
  handle_one _ c = c
