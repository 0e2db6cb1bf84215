-- ===== src/Watcher.antt =====
-- libsession-ui-core/src/utils/sync/watcher.rs: the receivers of a watched value, those that are made
-- of others by `map` and `combine_with`, and the task of `connect_to`, which copies what a receiver
-- has into a watcher. The receiver of a channel is a parameter: a `WatcherReceiver` over a world,
-- which is what its senders hold when it is asked. A future that is polled and not ready is pending,
-- a receiver whose senders are gone is disconnected.
pub mod Combined
pub mod Connected
mod Tests
use session_cli.Base.{ℕ, zero, suc, ◌≡◌, Bool, true, false, List, [], ◌∷◌, ◌++◌, if◌then◌else◌}

pub data Changed {ℓ} (R : Type ℓ) : Type ℓ where
  pending : Changed R
  changed_to : R → Changed R
  disconnected : Changed R

pub record WatcherReceiver {ℓ κ μ} (W : Type ℓ) (R : Type κ) (T : Type μ) : Type (ℓ ⊔ κ ⊔ μ) where
  pub resubscribe : R → R
  pub borrow : R → W → T
  pub changed : R → W → Changed R

-- `WatcherReceiverMap`
unfoldable pub map_receiver {ℓ κ μ ν} :
    {W : Type ℓ} {R : Type κ} {T : Type μ} {U : Type ν}
    → (T → U)
    → WatcherReceiver W R T
    → WatcherReceiver W R U
map_receiver transform old = record {
  resubscribe = old.resubscribe;
  borrow = λ r w. transform (old.borrow r w);
  changed = old.changed;
}

-- `try_select`: the second is polled only where the first is pending, and the first error is the error.
unfoldable pub try_select {ℓ κ} :
    {R : Type ℓ} {S : Type κ} → R → S → Changed R → Changed S → Changed (R × S)
try_select r s (changed_to r') _ = changed_to (r', s)
try_select r s disconnected _ = disconnected
try_select r s pending (changed_to s') = changed_to (r, s')
try_select r s pending disconnected = disconnected
try_select r s pending pending = pending

-- `WatcherReceiverCombine`, `combine_watcher_receivers`
unfoldable pub combine_watcher_receivers {ℓ κ μ ν ξ ρ} :
    {W : Type ℓ} {R : Type κ} {S : Type μ} {T : Type ν} {U : Type ξ} {V : Type ρ}
    → WatcherReceiver W R T
    → WatcherReceiver W S U
    → (T → U → V)
    → WatcherReceiver W (R × S) V
combine_watcher_receivers one two combine = record {
  resubscribe = λ r. (one.resubscribe r.0, two.resubscribe r.1);
  borrow = λ r w. combine (one.borrow r.0 w) (two.borrow r.1 w);
  changed = λ r w. try_select r.0 r.1 (one.changed r.0 w) (two.changed r.1 w);
}

-- A watcher, with the values that its own receivers were notified of.
pub record Watcher {ℓ} (T : Type ℓ) : Type ℓ where
  pub value : T
  pub notified : List T

-- The task: it waits for a change, or it has ended, or the turns given did not do.
pub data Connection {ℓ κ} (R : Type ℓ) (T : Type κ) : Type (ℓ ⊔ κ) where
  waiting : R → Watcher T → Connection R T
  ended : Watcher T → Connection R T
  busy : Connection R T

-- The closure of `connect_to`, in `send_if_modified`
unfoldable pub send_if_modified {ℓ} : {T : Type ℓ} → (T → T → Bool) → T → Watcher T → Watcher T
send_if_modified eq new watcher =
    if eq watcher.value new
    then watcher
    else record { value = new; notified = watcher.notified ++ new ∷ [] }

module _ {ℓ κ μ} {W : Type ℓ} {R : Type κ} {T : Type μ} (eq : T → T → Bool)
    (receiver : WatcherReceiver W R T) where
  -- The loop from where it waits for a change, until it waits again: `turns` bounds its iterations.
  unfoldable pub wake : (turns : ℕ) → R → W → Watcher T → Connection R T
  wake zero r w watcher = elim (receiver.changed r w) [
    | pending ↦ waiting r watcher
    | disconnected ↦ ended watcher
    | changed_to _ ↦ busy
  ]
  wake (suc n) r w watcher = elim (receiver.changed r w) [
    | pending ↦ waiting r watcher
    | disconnected ↦ ended watcher
    | changed_to r' ↦ wake n r' w (send_if_modified eq (receiver.borrow r' w) watcher)
  ]

  -- The loop as the worlds come after each other.
  unfoldable pub wakes : (turns : ℕ) → List W → Connection R T → Connection R T
  wakes turns (w ∷ ws) (waiting r watcher) = wakes turns ws (wake turns r w watcher)
  wakes turns _ connection = connection

  unfoldable pub connect_to : (turns : ℕ) → R → W → List W → Watcher T → Connection R T
  connect_to turns r w ws watcher =
      wakes turns ws (wake turns r w (send_if_modified eq (receiver.borrow r w) watcher))
