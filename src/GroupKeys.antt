-- ===== src/GroupKeys.antt =====
-- How a group starts and goes on: libsession-ui-core/src/worker/group/sync_group.rs, `sync_group`,
-- `wait_for_group_keys` and `handle_command`, with the loops of the keys' `sync_config` of
-- libsession-ui-core/src/worker/sync_config.rs that poll and that pipe the side channel.
-- The channels hold one message, as the code makes them: a task that sends into a full one waits
-- until it is read. A step is what one task does between two waits; which task goes next is any
-- order of steps. The polls, their results and what else is done with the config are any.
pub mod Stalled
pub mod Waiting
mod Tests
use session_cli.Base.{
  ℕ, Bool, true, false, List, [], ◌∷◌, ◌++◌, Option, none, some, Result, ok, err, if◌then◌else◌,
}
use session_cli.ConfigSync.{SyncOps, ConfigWrapper, merge_messages}
use session_cli.Dispatch.{
  MessageNamespace, user_messages, contacts_config, user_profile_config, convo_info_volatile_config,
  user_groups_config, group_messages, group_kicked_messages, group_keys_config, group_info_config,
  group_member_config, GroupCommand, side_channel_message_received, GroupChannels, handle_one,
}

-- A `Result<()>` that is sent for a poll.
abbrev pub PollResult {ℓ} : Type ℓ → Type ℓ
PollResult E = Result E (Unit {0})

-- What the tasks of a group hold: the keys, the channel for the results of polls and those of the side channels,
-- what is being sent, the commands to come, and the number of keys that `wait_for_group_keys` found.
pub record GroupTask {ℓ κ μ} (C : Type ℓ) (M : Type κ) (E : Type μ) : Type (ℓ ⊔ κ ⊔ μ) where
  pub keys : ConfigWrapper C E
  pub poll_results : List (PollResult E)
  pub channels : GroupChannels (List M)
  pub poll_sends : Option (PollResult E)
  pub pipe_sends : Bool
  pub passes : Option (GroupCommand (List M))
  pub commands : List (GroupCommand (List M))
  pub found : Option ℕ

-- A channel of one message.
abbrev pub is_full {ℓ} : {A : Type ℓ} → List A → Bool
is_full [] = false
is_full (_ ∷ _) = true

abbrev pub tail_of {ℓ} : {A : Type ℓ} → List A → List A
tail_of [] = []
tail_of (_ ∷ xs) = xs

-- The channel that a command is sent into, whether it is full: a command of another namespace is
-- only logged.
unfoldable pub channel_full {ℓ} : {M : Type ℓ} → GroupCommand M → GroupChannels M → Bool
channel_full (side_channel_message_received group_messages m) c = is_full c.messages
channel_full (side_channel_message_received group_info_config m) c = is_full c.info
channel_full (side_channel_message_received group_member_config m) c = is_full c.members
channel_full (side_channel_message_received group_keys_config m) c = is_full c.keys
channel_full (side_channel_message_received group_kicked_messages m) c = is_full c.kicked
channel_full _ c = false

pub data GroupStep {ℓ κ μ} (C : Type ℓ) (M : Type κ) (E : Type μ) : Type (ℓ ⊔ κ ⊔ μ) where
  -- a poll that merges messages and has a result, and the sending of the result
  poll : List M → PollResult E → GroupStep C M E
  send_result : GroupStep C M E
  -- `pipe_side_channel_messages`
  pipe : GroupStep C M E
  send_piped : GroupStep C M E
  -- `wait_for_group_keys`
  read_result : GroupStep C M E
  -- `handle_command`
  receive_command : GroupStep C M E
  pass_on : GroupStep C M E
  -- the other workers take from their side channels
  take_messages take_info take_members : GroupStep C M E
  -- whatever else is done with the keys
  use_keys : ConfigWrapper C E → GroupStep C M E

module _ {ℓ κ μ} {C : Type ℓ} {M : Type κ} {E : Type μ} (ops : SyncOps C M E) (len : C → ℕ) where
  -- The turn of the loop that polls, up to the sending of its result, and the sending.
  unfoldable pub poll_turn : List M → PollResult E → GroupTask C M E → Option (GroupTask C M E)
  unfolding merge_messages
  poll_turn ms r s = elim s.poll_sends [
    | some _ ↦ none
    | none ↦ some (record s { keys = (merge_messages ops ms s.keys).1; poll_sends = some r })
  ]

  unfoldable pub send_poll_result : GroupTask C M E → Option (GroupTask C M E)
  send_poll_result s = elim s.poll_sends [
    | none ↦ none
    | some r ↦
        if is_full s.poll_results
        then none
        else some (record s { poll_results = r ∷ []; poll_sends = none })
  ]

  -- A turn of `pipe_side_channel_messages`, in the same two parts.
  unfoldable pub pipe_turn : GroupTask C M E → Option (GroupTask C M E)
  unfolding merge_messages
  pipe_turn s = elim s.channels.keys [
    | [] ↦ none
    | ms ∷ rest ↦
        if s.pipe_sends
        then none
        else some (record s {
          keys = (merge_messages ops ms s.keys).1;
          channels = record s.channels { keys = rest };
          pipe_sends = true;
        })
  ]

  unfoldable pub send_piped_result : GroupTask C M E → Option (GroupTask C M E)
  send_piped_result s =
      if s.pipe_sends
      then if is_full s.poll_results
        then none
        else some (record s { poll_results = ok tt ∷ []; pipe_sends = false })
      else none

  -- A turn of the loop of `wait_for_group_keys`, and its end.
  unfoldable pub wait_turn : GroupTask C M E → Option (GroupTask C M E)
  wait_turn s = elim s.found [
    | some _ ↦ none
    | none ↦ elim s.poll_results [
      | [] ↦ none
      | r ∷ rest ↦ elim r [
        | err _ ↦ some (record s { poll_results = rest })
        | ok _ ↦ some (record s { poll_results = rest; found = some (len s.keys.inner) })
      ]
    ]
  ]

  -- A turn of the loop of `handle_command`, which starts when the keys are found.
  unfoldable pub receive_turn : GroupTask C M E → Option (GroupTask C M E)
  receive_turn s = elim s.found [
    | none ↦ none
    | some _ ↦ elim s.passes [
      | some _ ↦ none
      | none ↦ elim s.commands [
        | [] ↦ none
        | c ∷ cs ↦ some (record s { passes = some c; commands = cs })
      ]
    ]
  ]

  unfoldable pub pass_turn : GroupTask C M E → Option (GroupTask C M E)
  unfolding channel_full handle_one
  pass_turn s = elim s.passes [
    | none ↦ none
    | some c ↦
        if channel_full c s.channels
        then none
        else some (record s { channels = handle_one c s.channels; passes = none })
  ]

  -- A step of a task, where it can be made.
  unfoldable pub group_step : GroupStep C M E → GroupTask C M E → Option (GroupTask C M E)
  unfolding poll_turn send_poll_result pipe_turn send_piped_result wait_turn receive_turn pass_turn
  group_step (poll ms r) s = poll_turn ms r s
  group_step send_result s = send_poll_result s
  group_step pipe s = pipe_turn s
  group_step send_piped s = send_piped_result s
  group_step read_result s = wait_turn s
  group_step receive_command s = receive_turn s
  group_step pass_on s = pass_turn s
  group_step take_messages s =
      some (record s { channels = record s.channels { messages = tail_of s.channels.messages } })
  group_step take_info s =
      some (record s { channels = record s.channels { info = tail_of s.channels.info } })
  group_step take_members s =
      some (record s { channels = record s.channels { members = tail_of s.channels.members } })
  group_step (use_keys w) s = some (record s { keys = w })

  unfoldable pub group_steps : List (GroupStep C M E) → GroupTask C M E → Option (GroupTask C M E)
  unfolding group_step
  group_steps [] s = some s
  group_steps (a ∷ rest) s = elim (group_step a s) [ none ↦ none | some t ↦ group_steps rest t ]
