-- ===== src/Batcher/Tests.antt =====
-- Witnesses for the theorems on batches: two requests, of callers 7 and 8, that share a batch.
use session_cli.Base.{ℕ, ◌+◌, ◌≡◌, refl, [], ◌∷◌, arith, ok, ◌==◌, true}
use session_cli.Batcher.{
  Batchable, Pending, Batch, Upstream, unit_batchable, run_batch, insert_to_batching, fits,
}
use session_cli.Batcher.Runner.{
  Runner, Reach, take_request, start_front, finish, here, next, initial, receive, IsSound,
  reached-IsSound,
}

abbrev number_batchable : Batchable ℕ
number_batchable = record { should_batch_with = λ a b. a == b; can_batch = λ _. true }

abbrev request : ℕ → ℕ → Pending ℕ (Unit {0})
request a c = record { args = a; input = tt; caller = c }

abbrev doubled : Upstream ℕ (Unit {0}) ℕ ℕ
doubled a inputs = ok (a ∷ (a + a) ∷ [])

abbrev both : Batch ℕ (Unit {0})
both = record { deadline = 10; head = request 3 7; rest = request 3 8 ∷ [] }

abbrev queue : Runner ℕ (Unit {0}) ℕ ℕ → Runner ℕ (Unit {0}) ℕ ℕ
queue s =
    receive number_batchable unit_batchable 10 (request 3 8) 4
      (receive number_batchable unit_batchable 10 (request 3 7) 0 s)

abbrev start_state : Runner ℕ (Unit {0}) ℕ ℕ
start_state = initial number_batchable unit_batchable 10

one_batch : (queue start_state).batching ≡ both ∷ []
unfolding receive insert_to_batching fits
one_batch = refl

abbrev batch_running : Runner ℕ (Unit {0}) ℕ ℕ
batch_running = record (queue start_state) { batching = []; running = both ∷ []; clock = 10 }

abbrev finished : Runner ℕ (Unit {0}) ℕ ℕ
finished = record batch_running { running = []; replies = run_batch doubled both; clock = 12 }

reached : Reach number_batchable unit_batchable 10 start_state finished
unfolding receive
reached =
    next
      (next
        (next (next here (take_request (request 3 7) 0 (omega arith)))
          (take_request (request 3 8) 4 (omega arith)))
        (start_front both [] 10 (omega arith) (omega arith) one_batch))
      (finish doubled [] [] both 12 (omega arith) refl)

reached-IsSound_example : IsSound number_batchable unit_batchable 10 finished
reached-IsSound_example = reached-IsSound number_batchable unit_batchable 10 reached
