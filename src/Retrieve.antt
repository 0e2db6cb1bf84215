-- ===== src/Retrieve.antt =====
-- libsession-ui-core/src/utils/sync/async_retrieve.rs: `SharedAsyncRetrieveState`, a value that is
-- retrieved on demand, kept for a while, and survives failed retrievals.
-- The lock is held through a call, so a call is one step. An `Instant` is a number of milliseconds;
-- the closure `retrieve` is what it would return and the time at which it would be done.
pub mod Answers
pub mod Latest
mod Tests
use session_cli.Base.{
  ℕ, ◌-◌, Bool, true, false, Option, none, some, Result, ok, err, ok_or, ltb, if◌then◌else◌,
}

pub data State {ℓ κ} (T : Type ℓ) (E : Type κ) : Type (ℓ ⊔ κ) where
  idle : State T E
  loaded : T → ℕ → State T E
  -- last success, error, time
  failed : Option T → E → ℕ → State T E
  retry_requested : Option T → State T E

pub record Intervals : Type 0 where
  pub refresh_interval : ℕ
  pub min_retry_interval : ℕ

pub record Fetch {ℓ κ} (T : Type ℓ) (E : Type κ) : Type (ℓ ⊔ κ) where
  pub outcome : Result E T
  pub done_at : ℕ

-- What a call of `get_or_retrieve` does: the new state, its result, and whether it ran `retrieve`.
pub record Reply {ℓ κ} (T : Type ℓ) (E : Type κ) : Type (ℓ ⊔ κ) where
  pub state : State T E
  pub result : Result E T
  pub retrieved : Bool

module _ {ℓ κ} {T : Type ℓ} {E : Type κ} where
  unfoldable pub set_error : ℕ → E → State T E → State T E
  set_error now e (loaded last_success _) = failed (some last_success) e now
  set_error now e (failed (some last_success) _ _) = failed (some last_success) e now
  set_error now e _ = failed none e now

  unfoldable pub force_retry_next : State T E → State T E
  force_retry_next (loaded last_success _) = retry_requested (some last_success)
  force_retry_next (failed (some last_success) _ _) = retry_requested (some last_success)
  force_retry_next _ = retry_requested none

  -- The first `match` of `get_or_retrieve`: its early returns.
  unfoldable pub cached : Intervals → ℕ → State T E → Option (Result E T)
  cached c now (loaded value loaded_at) =
      if ltb (now - loaded_at) c.refresh_interval then some (ok value) else none
  cached c now (failed last_success error loaded_at) =
      if ltb (now - loaded_at) c.min_retry_interval then some (ok_or last_success error) else none
  cached c now _ = none

  -- The second `match`, on the state and the result of `retrieve`.
  unfoldable pub settle : ℕ → State T E → Result E T → Reply T E
  settle now _ (ok value) = record { state = loaded value now; result = ok value; retrieved = true }
  settle now (loaded value _) (err e) = record {
    state = failed (some value) e now;
    result = ok value;
    retrieved = true;
  }
  settle now (failed (some value) _ _) (err e) = record {
    state = failed (some value) e now;
    result = ok value;
    retrieved = true;
  }
  settle now _ (err e) = record { state = failed none e now; result = err e; retrieved = true }

  unfoldable pub get_or_retrieve : Intervals → ℕ → Fetch T E → State T E → Reply T E
  unfolding cached settle
  get_or_retrieve c now retrieve s = elim (cached c now s) [
    | some r ↦ record { state = s; result = r; retrieved = false }
    | none ↦ settle retrieve.done_at s retrieve.outcome
  ]

-- One use of the shared state.
pub data Call {ℓ κ} (T : Type ℓ) (E : Type κ) : Type (ℓ ⊔ κ) where
  get : ℕ → Fetch T E → Call T E
  set_error_at : ℕ → E → Call T E
  force_retry : Call T E
