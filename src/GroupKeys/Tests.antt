-- ===== src/GroupKeys/Tests.antt =====
-- Keys that are a number, to which a message adds one.
use session_cli.Base.{
  ℕ, ◌+◌, ◌≤◌, ◌≡◌, refl, true, false, List, [], ◌∷◌, ◌++◌, map, length, none, some, ok, err,
}
use session_cli.ConfigSync.{SyncOps, ConfigWrapper, merge_messages, request_push, notify}
use session_cli.Dispatch.{
  group_messages, group_kicked_messages, group_keys_config, GroupCommand,
  side_channel_message_received, handle_one,
}
use session_cli.GroupKeys.{
  GroupTask, GroupStep, poll, send_result, pipe, receive_command, pass_on, group_steps,
  channel_full,
}
use session_cli.GroupKeys.Stalled.{merges, count_for, found-stalled}
use session_cli.GroupKeys.Waiting.{waiting-finds}

abbrev counting : SyncOps ℕ ℕ ℕ
counting = record {
  needs_push = λ c. false;
  needs_dump = λ c. true;
  merge = λ ms c. (map (λ m. true) ms, c + length ms);
  push = λ c. (ok none, c);
  confirm_pushed = λ seq c. c;
}

abbrev keys_with : ℕ → ℕ → ConfigWrapper ℕ ℕ
keys_with n notified = record {
  inner = n;
  push_requests = [];
  receiver = true;
  notified = notified;
  answered = [];
  dropped = [];
}

abbrev the_commands : List (GroupCommand (List ℕ))
the_commands =
    side_channel_message_received group_keys_config (1 ∷ [])
    ∷ side_channel_message_received group_messages (2 ∷ [])
    ∷ side_channel_message_received group_keys_config (3 ∷ [])
    ∷ []

abbrev start : GroupTask ℕ ℕ ℕ
start = record {
  keys = keys_with 1 0;
  poll_results = [];
  channels = record { messages = []; info = []; members = []; keys = []; kicked = [] };
  poll_sends = none;
  pipe_sends = false;
  passes = none;
  commands = the_commands;
  found = none;
}

-- A poll that fails, whose error is sent, and one that succeeds.
abbrev polled : List (GroupStep ℕ ℕ ℕ)
polled = poll [] (err 5) ∷ send_result ∷ poll (7 ∷ []) (ok tt) ∷ []

abbrev sending : GroupTask ℕ ℕ ℕ
sending = record start {
  keys = keys_with 2 1;
  poll_results = err 5 ∷ [];
  poll_sends = some (ok tt);
}

reaches_sending : group_steps counting (λ n. n) polled start ≡ some sending
unfolding group_steps merge_messages request_push notify
reaches_sending = refl

waiting-finds_example :
    (more : List (GroupStep ℕ ℕ ℕ)) × (u : GroupTask ℕ ℕ ℕ) × (group_steps counting
        (λ n. n)
        more
        sending
      ≡ some u)
    × (length more ≤ 3)
    × (u.found ≡ some 2)
waiting-finds_example =
    waiting-finds counting (λ n. n) polled start sending refl reaches_sending refl refl

abbrev found_two : GroupTask ℕ ℕ ℕ
found_two = record start { keys = keys_with 2 1; found = some 2 }

-- Two polls, of which the second sends for ever, and a push of keys.
abbrev going_on : List (GroupStep ℕ ℕ ℕ)
going_on =
    poll (8 ∷ []) (ok tt)
    ∷ send_result
    ∷ poll (9 ∷ []) (ok tt)
    ∷ receive_command
    ∷ pass_on
    ∷ pipe
    ∷ receive_command
    ∷ []

abbrev stalled : GroupTask ℕ ℕ ℕ
stalled = record found_two {
  keys = keys_with 5 4;
  poll_results = ok tt ∷ [];
  poll_sends = some (ok tt);
  pipe_sends = true;
  passes = some (side_channel_message_received group_messages (2 ∷ []));
  commands = side_channel_message_received group_keys_config (3 ∷ []) ∷ [];
}

reaches_stalled : group_steps counting (λ n. n) going_on found_two ≡ some stalled
unfolding group_steps merge_messages request_push notify channel_full handle_one
reaches_stalled = refl

found-stalled_example :
    (merges going_on ≤ 3)
    × ((taken : List (GroupCommand (List ℕ))) × (the_commands ≡ taken ++ stalled.commands)
        × (count_for group_keys_config taken ≤ 5)
        × (count_for group_kicked_messages taken ≤ 2))
found-stalled_example =
    found-stalled counting (λ n. n) going_on found_two stalled 2 refl reaches_stalled
