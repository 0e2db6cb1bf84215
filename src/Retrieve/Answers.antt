-- ===== src/Retrieve/Answers.antt =====
-- Which calls of `get_or_retrieve` run `retrieve`, and what they answer.
use session_cli.Base.{
  ℕ, ◌-◌, ◌≡◌, refl, true, false, none, some, Option-cases, inl, inr, ◌∙◌, Bool-cases,
  if◌then◌else◌, Result, ok, err, ltb, arith,
}
use session_cli.Retrieve.{
  State, idle, loaded, failed, retry_requested, Intervals, Fetch, force_retry_next, cached, settle,
  get_or_retrieve,
}

-- How long the outcome of a retrieval is kept before the next one.
abbrev pub kept_for {ℓ κ} : {T : Type ℓ} {E : Type κ} → Intervals → Result E T → ℕ
kept_for c (ok _) = c.refresh_interval
kept_for c (err _) = c.min_retry_interval

module _ {ℓ κ} {T : Type ℓ} {E : Type κ} (c : Intervals) where
  get-settle :
      (s : State T E) (now : ℕ) (f : Fetch T E)
      → (get_or_retrieve c now f s).retrieved ≡ true
      → get_or_retrieve c now f s ≡ settle f.done_at s f.outcome
  unfolding get_or_retrieve
  get-settle s now f h = elim (Option-cases (cached c now s)) [
    | inl e ↦ rw (e, get_or_retrieve)
    | inr (r, e) ↦ cc (rw (e, get_or_retrieve) at h)
  ]

  cached-settle :
      (s : State T E) (now later : ℕ) (r : Result E T)
      → cached c later (settle now s r).state
        ≡ (if ltb (later - now) (kept_for c r) then some (settle now s r).result else none)
  unfolding cached settle
  cached-settle idle now later (ok v) = refl
  cached-settle idle now later (err e) = refl
  cached-settle (loaded v t) now later (ok w) = refl
  cached-settle (loaded v t) now later (err e) = refl
  cached-settle (failed (some v) e t) now later (ok w) = refl
  cached-settle (failed (some v) e t) now later (err x) = refl
  cached-settle (failed none e t) now later (ok w) = refl
  cached-settle (failed none e t) now later (err x) = refl
  cached-settle (retry_requested o) now later (ok w) = refl
  cached-settle (retry_requested o) now later (err e) = refl

  pub get-cached :
      (now : ℕ) (f : Fetch T E) (s : State T E) {r : Result E T}
      → cached c now s ≡ some r
      → get_or_retrieve c now f s ≡ record { state = s; result = r; retrieved = false }
  unfolding get_or_retrieve
  get-cached now f s e = rw (e, get_or_retrieve)

  pub get-uncached :
      (now : ℕ) (f : Fetch T E) (s : State T E)
      → cached c now s ≡ none
      → get_or_retrieve c now f s ≡ settle f.done_at s f.outcome
  unfolding get_or_retrieve
  get-uncached now f s e = rw (e, get_or_retrieve)

  -- After a call that ran `retrieve`, a call while the outcome is younger than the interval that
  -- belongs to it (the refresh interval after a success, the minimal retry interval after a
  -- failure) runs nothing, changes nothing and has the first call's result; a later call runs
  -- `retrieve` again.
  pub get-get :
      (s : State T E) (now later : ℕ) (first again : Fetch T E)
      → (get_or_retrieve c now first s).retrieved ≡ true
      → get_or_retrieve c later again (get_or_retrieve c now first s).state ≡ (
          if ltb (later - first.done_at) (kept_for c first.outcome)
          then record {
            state = (get_or_retrieve c now first s).state;
            result = (get_or_retrieve c now first s).result;
            retrieved = false;
          }
          else settle again.done_at (get_or_retrieve c now first s).state again.outcome)
  get-get s now later first again h = rw (get-settle s now first h) (
      let settled = settle first.done_at s first.outcome in
      let known = cached-settle s first.done_at later first.outcome in
      let young = ltb (later - first.done_at) (kept_for c first.outcome) in
      elim (Bool-cases young) [
        | inl y ↦ rw y (get-cached later again settled.state (known ∙ rw y))
        | inr n ↦ rw n (get-uncached later again settled.state (known ∙ rw n))
      ])

  -- After `force_retry_next` a call always runs `retrieve`, and goes on exactly as from the idle
  -- state: a value that was held before is not answered when that retrieval fails.
  pub get-force_retry :
      (s : State T E) (now : ℕ) (f : Fetch T E)
      → get_or_retrieve c now f (force_retry_next s) ≡ settle f.done_at idle f.outcome
  unfolding get_or_retrieve force_retry_next
  get-force_retry s now f = ground arith
