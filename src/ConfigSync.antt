-- ===== src/ConfigSync.antt =====
-- libsession-ui-core/src/config/wrapper.rs, `ConfigWrapper`, and the tasks of
-- libsession-ui-core/src/worker/sync_config.rs that push and dump a config.
-- The lock makes each use one step. A callback is the number of its caller, and what is sent through
-- it is a result. The config object is libsession's: what the program uses of it is `SyncOps`.
pub mod Callbacks
pub mod Dumping
mod Tests
use session_cli.Base.{
  ℕ, zero, suc, ◌+◌, Bool, true, false, not, ◌&&◌, List, [], ◌∷◌, ◌++◌, map, Option, none, some,
  Result, ok, err, ◌==◌, ltb, length, if◌then◌else◌,
}
use session_cli.Base.Text.{Text}

pub record SyncOps {ℓ κ μ} (C : Type ℓ) (M : Type κ) (E : Type μ) : Type (ℓ ⊔ κ ⊔ μ) where
  pub needs_push : C → Bool
  pub needs_dump : C → Bool
  -- for each message whether it was merged
  pub merge : List M → C → List Bool × C
  -- the sequence number of what is to be pushed
  pub push : C → Result E (Option ℕ) × C
  pub confirm_pushed : ℕ → C → C

-- `ConfigWrapper`: the object, the queue of push requests, whether its receiver is there, which is
-- that of the push loop, and the number of changes notified; and the callbacks answered, and those
-- dropped, whose callers get an error.
pub record ConfigWrapper {ℓ κ} (C : Type ℓ) (E : Type κ) : Type (ℓ ⊔ κ) where
  pub inner : C
  pub push_requests : List (Option ℕ)
  pub receiver : Bool
  pub notified : ℕ
  pub answered : List (ℕ × Result E (Unit {0}))
  pub dropped : List ℕ

abbrev pub count_true : List Bool → ℕ
count_true [] = 0
count_true (b ∷ bs) = if b then suc (count_true bs) else count_true bs

-- The callbacks of a queue.
unfoldable pub callbacks : List (Option ℕ) → List ℕ
callbacks [] = []
callbacks (none ∷ q) = callbacks q
callbacks (some c ∷ q) = c ∷ callbacks q

unfoldable pub answer_all {ℓ} :
    {E : Type ℓ} → Result E (Unit {0}) → List ℕ → List (ℕ × Result E (Unit {0}))
answer_all r [] = []
answer_all r (c ∷ cs) = (c, r) ∷ answer_all r cs

module _ {ℓ κ μ} {C : Type ℓ} {M : Type κ} {E : Type μ} (ops : SyncOps C M E) where
  unfoldable pub new : C → ConfigWrapper C E
  new c = record {
    inner = c;
    push_requests = if ops.needs_push c then none ∷ [] else [];
    receiver = true;
    notified = 0;
    answered = [];
    dropped = [];
  }

  -- `push_requests.send(cb)`, whose error is not looked at: the callback is dropped with it.
  unfoldable pub send_request : Option ℕ → ConfigWrapper C E → ConfigWrapper C E
  unfolding callbacks
  send_request cb w =
      if w.receiver
      then record w { push_requests = w.push_requests ++ cb ∷ [] }
      else record w { dropped = w.dropped ++ callbacks (cb ∷ []) }

  -- The two messages that a change of the object may send, `changed` and a push request.
  unfoldable pub request_push : Bool → Option ℕ → ConfigWrapper C E → ConfigWrapper C E
  unfolding send_request
  request_push wanted (some c) w =
      if wanted
      then send_request (some c) w
      else record w { answered = w.answered ++ (c, ok tt) ∷ [] }
  request_push wanted none w = if wanted then send_request none w else w

  unfoldable pub notify : Bool → ConfigWrapper C E → ConfigWrapper C E
  notify changed w = if changed then record w { notified = suc w.notified } else w

  unfoldable pub merge_messages : List M → ConfigWrapper C E → ℕ × ConfigWrapper C E
  unfolding request_push notify
  merge_messages [] w = (0, w)
  merge_messages (m ∷ ms) w =
      let (merged, c) = ops.merge (m ∷ ms) w.inner in
      let num_merged = count_true merged in
      (
        num_merged,
        request_push (ops.needs_push c) none (notify (ltb 0 num_merged) (record w { inner = c })),
      )

  unfoldable pub do_mutate {ν} :
      {T : Type ν} → Bool → (C → T × C) → Option ℕ → ConfigWrapper C E → T × ConfigWrapper C E
  unfolding request_push notify
  do_mutate can_send_push_request f cb w =
      let (ret, c) = f w.inner in
      (
        ret,
        request_push (ops.needs_push c && can_send_push_request) cb
            (notify (ops.needs_dump c) (record w { inner = c })),
      )

  -- `mutate`, and the part of `mutate_and_await_push` before the wait
  abbrev pub mutate {ν} : {T : Type ν} → (C → T × C) → ConfigWrapper C E → T × ConfigWrapper C E
  mutate f = do_mutate true f none

  abbrev pub mutate_and_await_push {ν} :
      {T : Type ν} → (C → T × C) → ℕ → ConfigWrapper C E → T × ConfigWrapper C E
  mutate_and_await_push f c = do_mutate true f (some c)

  unfoldable pub confirm : ℕ → ConfigWrapper C E → ConfigWrapper C E
  unfolding do_mutate
  confirm seq w = (do_mutate {T = Unit {0}} false (λ c. (tt, ops.confirm_pushed seq c)) none w).1

  -- The closure that `push_config_if_needed` runs under the lock.
  abbrev pub push_if_needed : C → Result E (Option ℕ) × C
  push_if_needed c = if not (ops.needs_push c) then (ok none, c) else ops.push c

  -- A turn of the loop of `push_config_if_needed` on a queue that is not empty: it is drained, the
  -- config pushed, and every callback drained answered.
  unfoldable pub push_turn : ConfigWrapper C E → ConfigWrapper C E
  unfolding do_mutate confirm callbacks answer_all
  push_turn w =
      let pending = callbacks w.push_requests in
      let (result, after) = mutate push_if_needed (record w { push_requests = [] }) in
      elim result [
        | err e ↦ record after { answered = after.answered ++ answer_all (err e) pending }
        | ok none ↦ record after { answered = after.answered ++ answer_all (ok tt) pending }
        | ok (some seq) ↦
            let confirmed = confirm seq after in
            record confirmed { answered = confirmed.answered ++ answer_all (ok tt) pending }
      ]

  -- The push loop ends, with an error of its own or of a task that it is joined with: its receiver is
  -- dropped with what is queued.
  unfoldable pub end_push_loop : ConfigWrapper C E → ConfigWrapper C E
  unfolding callbacks
  end_push_loop w = record w {
    push_requests = [];
    receiver = false;
    dropped = w.dropped ++ callbacks w.push_requests;
  }
