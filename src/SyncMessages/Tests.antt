-- ===== src/SyncMessages/Tests.antt =====
-- Witnesses for the theorems on stored messages: a payload is the text of its sender.
use session_cli.Base.{ℕ, ◌≡◌, refl, true, List, [], ◌∷◌, Option, none, some, Result, ok}
use session_cli.Base.Int.{pos}
use session_cli.Base.Text.{Text, codes, eq_ignore_ascii_case}
use session_cli.Messages.{Message, Table, any_conflict}
use session_cli.Swarm.{SwarmMessage, Environment, Repository, retrieve, poll_swarm_messages_once}
use session_cli.SyncMessages.{
  SyncedContent, RegularMessage, create_db_message, save_swarm_messages, SyncEvent, polled,
  side_channel, sync_regular_messages,
}
use session_cli.SyncMessages.Stored.{brought-stored, poll_again}

abbrev me : Text
me = codes "05aa"

abbrev decode : List ℕ → Result Text (RegularMessage ℕ)
decode payload =
    ok (record {
      sender = payload;
      content = record { sync_target = none; body = 1 };
      timestamp = 5;
    })

abbrev greeting : SwarmMessage
greeting = record { data_of = codes "05bb"; hash = codes "h"; expiration = 9; sent = 6 }

abbrev env : Option Text → Environment ℕ Text
env fault = record {
  node = ok (codes "n");
  query_fault = none;
  signature = ok 1;
  now = 7;
  answer = λ node request. ok (greeting ∷ []);
  save_fault = fault;
}

abbrev empty : Repository (Table (SyncedContent ℕ))
empty = record { states = []; stored = record { rows = []; next_id = 1 } }

abbrev stored : Message (SyncedContent ℕ)
stored = record {
  repository = me;
  server_id = some (codes "h");
  content = record { sync_target = none; body = 1 };
  sender = codes "05bb";
  receiver = [];
  created_at = 5;
  sent_at = some 6;
  expiration_at = some 9;
}

abbrev events : List (SyncEvent ℕ Text)
events = side_channel (some (codes "disk")) (greeting ∷ []) ∷ []

brought-stored_example :
    any_conflict stored
      (sync_regular_messages me decode
        (pos 0)
        (polled (env none) none ∷ events)
        empty).1.stored.rows
    ≡ true
unfolding retrieve create_db_message eq_ignore_ascii_case
brought-stored_example =
    brought-stored me decode (pos 0) (polled (env none) none) events empty (greeting ∷ []) 0
      greeting stored refl refl refl

abbrev once : Repository (Table (SyncedContent ℕ))
once =
    (poll_swarm_messages_once me (pos 0) (save_swarm_messages me decode none)
      (env (some (codes "disk"))) empty).repo

poll_again_example :
    (poll_swarm_messages_once me
      (pos 0)
      (save_swarm_messages me decode none)
      (env none)
      once).repo.stored
    ≡ once.stored
unfolding retrieve
poll_again_example =
    poll_again me decode (pos 0) (env (some (codes "disk"))) (env none) empty (codes "n")
      (codes "n") (greeting ∷ []) refl refl
