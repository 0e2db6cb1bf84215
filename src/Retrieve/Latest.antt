-- ===== src/Retrieve/Latest.antt =====
-- The value that is answered is the latest that was retrieved, over any sequence of calls.
use session_cli.Base.{
  ℕ, ◌≡◌, refl, Bool, true, false, List, [], ◌∷◌, ◌++◌, Option, none, some, Result, ok, err, arith,
  if◌then◌else◌, inl, inr, Result-cases,
}
use session_cli.Retrieve.{
  State, idle, loaded, failed, retry_requested, Intervals, Fetch, set_error, force_retry_next,
  get_or_retrieve, Call, get, set_error_at, force_retry,
}

-- A shared state with the value of the last retrieval that succeeded, which the code does not keep.
pub record Traced {ℓ κ} (T : Type ℓ) (E : Type κ) : Type (ℓ ⊔ κ) where
  pub state : State T E
  pub latest : Option T

module _ {ℓ κ} {T : Type ℓ} {E : Type κ} where
  abbrev pub start : Traced T E
  start = record { state = idle; latest = none }

  -- The value that a state holds.
  abbrev held : State T E → Option T
  held (loaded v _) = some v
  held (failed o _ _) = o
  held (retry_requested o) = o
  held idle = none

  abbrev newest : Result E T → Option T → Option T
  newest (ok v) _ = some v
  newest (err _) o = o

  unfoldable pub call : Intervals → Call T E → Traced T E → Traced T E
  call c (get now f) r =
      let reply = get_or_retrieve c now f r.state in
      record {
        state = reply.state;
        latest = if reply.retrieved then newest f.outcome r.latest else r.latest;
      }
  call c (set_error_at now e) r = record r { state = set_error now e r.state }
  call c force_retry r = record r { state = force_retry_next r.state }

  unfoldable pub run : Intervals → List (Call T E) → Traced T E → Traced T E
  run c [] r = r
  run c (x ∷ xs) r = run c xs (call c x r)

  -- What is held is the latest value.
  record IsCurrent (r : Traced T E) : Type (ℓ ⊔ κ) where
    current : (v : T) → held r.state ≡ some v → r.latest ≡ some v

  call-IsCurrent :
      (c : Intervals) (x : Call T E) (r : Traced T E) → IsCurrent r → IsCurrent (call c x r)
  unfolding call get_or_retrieve set_error force_retry_next
  call-IsCurrent c (get now f) r h = record { current = λ v. ground (arith, h.current v) }
  call-IsCurrent c (set_error_at now e) r h = record { current = λ v. ground (arith, h.current v) }
  call-IsCurrent c force_retry r h = record { current = λ v. ground (arith, h.current v) }

  run-IsCurrent :
      (c : Intervals) (xs : List (Call T E)) (r : Traced T E) → IsCurrent r → IsCurrent (run c xs r)
  unfolding run
  run-IsCurrent c [] r h = h
  run-IsCurrent c (x ∷ xs) r h = run-IsCurrent c xs (call c x r) (call-IsCurrent c x r h)

  run-append :
      (c : Intervals) (xs ys : List (Call T E)) (r : Traced T E)
      → run c (xs ++ ys) r ≡ run c ys (run c xs r)
  unfolding run
  run-append c [] ys r = refl
  run-append c (x ∷ xs) ys r = run-append c xs ys (call c x r)

  answer-latest :
      (c : Intervals) (r : Traced T E) (now : ℕ) (f : Fetch T E) (v : T)
      → IsCurrent r
      → (get_or_retrieve c now f r.state).result ≡ ok v
      → (call c (get now f) r).latest ≡ some v
  unfolding call get_or_retrieve
  answer-latest c r now f v h e = ground (arith, h.current v)

  -- From a new shared state and after any calls, a value that `get_or_retrieve` answers is the one
  -- of the most recent retrieval that succeeded, the answering call's own included.
  pub run-latest :
      (c : Intervals) (calls : List (Call T E)) (now : ℕ) (f : Fetch T E) (v : T)
      → (get_or_retrieve c now f (run c calls start).state).result ≡ ok v
      → (run c (calls ++ get now f ∷ []) start).latest ≡ some v
  run-latest c calls now f v e =
      let before = run-IsCurrent c calls start (record { current = λ w. ground arith }) in
      rw (run-append c calls (get now f ∷ []) start)
        (unfold run in answer-latest c (run c calls start) now f v before e)

  -- A value is held, and no retry was requested since it was retrieved.
  abbrev pub serves : State T E → Bool
  serves (loaded _ _) = true
  serves (failed (some _) _ _) = true
  serves _ = false

  abbrev pub unforced : List (Call T E) → Bool
  unforced [] = true
  unforced (force_retry ∷ _) = false
  unforced (_ ∷ xs) = unforced xs

  call-serves :
      (c : Intervals) (x : Call T E) (r : Traced T E)
      → unforced (x ∷ []) ≡ true
      → serves r.state ≡ true
      → serves (call c x r).state ≡ true
  unfolding call get_or_retrieve set_error
  call-serves c (get now f) r u h = ground arith
  call-serves c (set_error_at now e) r u h = ground arith
  call-serves c force_retry r u h = cc

  run-serves :
      (c : Intervals) (xs : List (Call T E)) (r : Traced T E)
      → unforced xs ≡ true
      → serves r.state ≡ true
      → serves (run c xs r).state ≡ true
  unfolding run
  run-serves c [] r u h = h
  run-serves c (get now f ∷ xs) r u h =
      run-serves c xs (call c (get now f) r) u (call-serves c (get now f) r refl h)
  run-serves c (set_error_at now e ∷ xs) r u h =
      run-serves c xs (call c (set_error_at now e) r) u
        (call-serves c (set_error_at now e) r refl h)
  run-serves c (force_retry ∷ xs) r u h = cc

  answer-serves :
      (c : Intervals) (s : State T E) (now : ℕ) (f : Fetch T E)
      → serves s ≡ true
      → (v : T) × ((get_or_retrieve c now f s).result ≡ ok v)
  unfolding get_or_retrieve
  answer-serves c s now f h = elim (Result-cases (get_or_retrieve c now f s).result) [
    | inl p ↦ p
    | inr (e, p) ↦ ground arith
  ]

  -- Once a value is held, calls of `get_or_retrieve` and `set_error` in any number and order, with
  -- retrievals that succeed or fail, leave a state whose next call answers a value and no error.
  pub run_answers :
      (c : Intervals) (calls : List (Call T E)) (r : Traced T E) (now : ℕ) (f : Fetch T E)
      → serves r.state ≡ true
      → unforced calls ≡ true
      → (v : T) × ((get_or_retrieve c now f (run c calls r).state).result ≡ ok v)
  run_answers c calls r now f h u =
      answer-serves c (run c calls r).state now f (run-serves c calls r u h)
