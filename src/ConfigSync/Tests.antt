-- ===== src/ConfigSync/Tests.antt =====
-- Witnesses for the theorems on the tasks of a config. The config is the number of its last push and
-- whether it is to be pushed.
use session_cli.Base.{
  ℕ, suc, ◌≡◌, refl, Bool, true, false, [], ◌∷◌, ◌++◌, Option, none, some, Result, ok,
}
use session_cli.Base.Text.{Text, codes}
use session_cli.ConfigSync.{
  SyncOps, ConfigWrapper, new, callbacks, answer_all, push_turn, mutate_and_await_push, do_mutate,
  notify, request_push, send_request, end_push_loop, confirm,
}
use session_cli.ConfigSync.Callbacks.{
  Session, Uses, IsAccounted, here, next, awaited, turned, ended, used-IsAccounted,
  push_turn-answers,
}
use session_cli.ConfigSync.Dumping.{Dumping, dump_turn, push_turn-ends_dumping, dump_turn-saves}
use session_cli.ConfigTables.{SavedRows}
use session_cli.ConfigTables.Dumps.{ConfigOps, get_config_dump}

abbrev Config : Type 0
Config = ℕ × Bool

abbrev ops : SyncOps Config ℕ Text
ops = record {
  needs_push = λ c. c.1;
  needs_dump = λ c. true;
  merge = λ ms c. ([], c);
  push = λ c. (ok (some (c.0)), (suc (c.0), true));
  confirm_pushed = λ seq c. (c.0, false);
}

abbrev dirty : Config → Unit {0} × Config
dirty c = (tt, (c.0, true))

abbrev start : Session ops
start = record { wrapper = new ops (0, false); handed = [] }

abbrev asked : Session ops
asked = record { wrapper = (mutate_and_await_push ops dirty 4 start.wrapper).1; handed = 4 ∷ [] }

-- The callback 4 is answered; the push loop ends, and the callback 5 is dropped.
abbrev closed : Session ops
closed = record asked { wrapper = end_push_loop ops (push_turn ops asked.wrapper) }

abbrev late : Session ops
late = record {
  wrapper = (mutate_and_await_push ops dirty 5 closed.wrapper).1;
  handed = 5 ∷ 4 ∷ [];
}

pushed : Uses ops start late
unfolding do_mutate new request_push send_request notify
pushed =
    next (next (next (next here (awaited dirty 4)) (turned (some 4) [] refl)) ended)
      (awaited dirty 5)

late_dropped : late.wrapper.dropped ≡ 5 ∷ []
unfolding do_mutate new request_push send_request notify push_turn end_push_loop callbacks confirm
late_dropped = refl

used-IsAccounted_example : IsAccounted ops late
used-IsAccounted_example = used-IsAccounted ops (0, false) pushed

push_turn-answers_example :
    ((r : Result Text (Unit {0})) × ((push_turn ops asked.wrapper).answered
        ≡ asked.wrapper.answered ++ answer_all r (callbacks asked.wrapper.push_requests)))
    × (callbacks (push_turn ops asked.wrapper).push_requests ≡ [])
push_turn-answers_example = push_turn-answers ops asked.wrapper

abbrev dumped : ConfigOps Config
dumped = record {
  config_type_name = codes "C";
  needs_dump = λ c. true;
  dump = λ c. (some (c.0 ∷ []), c);
}

abbrev no_rows : Config → Option Text → Unit {0} → SavedRows (Unit {0})
no_rows c id t = record { table = t; result = ok tt }

abbrev task : ℕ → Bool → Dumping Config Text (Unit {0})
task received to_push = record {
  wrapper = record {
    inner = (3, to_push);
    push_requests = none ∷ [];
    receiver = true;
    notified = 1;
    answered = [];
    dropped = [];
  };
  received = received;
  ended = false;
  dumps = [];
  rows = tt;
}

dump_turn-saves_example :
    get_config_dump (codes "C") none (dump_turn ops dumped no_rows none 9 (task 0 false)).dumps
    ≡ ok (some (3 ∷ []))
dump_turn-saves_example = dump_turn-saves ops dumped no_rows none 9 (task 0 false) refl refl refl

push_turn-ends_dumping_example :
    let after =
      dump_turn ops dumped no_rows none 9
        (record (task 1 true) { wrapper = push_turn ops (task 1 true).wrapper }) in
    (after.dumps ≡ [])
    × ((later : ℕ) (w : ConfigWrapper Config Text)
        → (dump_turn ops dumped no_rows none later (record after { wrapper = w })).dumps ≡ [])
push_turn-ends_dumping_example =
    push_turn-ends_dumping ops dumped no_rows none 9 (task 1 true) 3 (4, true) refl refl refl refl
      refl refl
