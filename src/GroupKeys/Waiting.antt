-- ===== src/GroupKeys/Waiting.antt =====
-- While the keys of a group are waited for, no result of a poll holds up the next.
use session_cli.Base.{
  ℕ, ◌≤◌, ◌≡◌, refl, ap, List, [], ◌∷◌, none, some, ok, err, arith, Option-cases, inl, inr, length,
}
use session_cli.ConfigSync.{SyncOps}
use session_cli.GroupKeys.{
  GroupTask, GroupStep, send_result, read_result, group_step, group_steps, PollResult,
}

module _ {ℓ κ μ} {C : Type ℓ} {M : Type κ} {E : Type μ} (ops : SyncOps C M E) (len : C → ℕ) where
  group_step-results :
      (a : GroupStep C M E) (s t : GroupTask C M E)
      → length s.poll_results ≤ 1
      → group_step ops len a s ≡ some t
      → length t.poll_results ≤ 1
  unfolding group_step
  group_step-results a s t l h = ground arith

  group_steps-results :
      (acts : List (GroupStep C M E)) (s t : GroupTask C M E)
      → length s.poll_results ≤ 1
      → group_steps ops len acts s ≡ some t
      → length t.poll_results ≤ 1
  unfolding group_steps
  group_steps-results [] s t l h = ground arith
  group_steps-results (a ∷ rest) s t l h = elim (Option-cases (group_step ops len a s)) [
    | inl e ↦ ground arith
    | inr (u, e) ↦ group_steps-results rest u t (group_step-results a s u l e) (ground arith)
  ]

  Finishes : GroupTask C M E → Type (ℓ ⊔ κ ⊔ μ)
  Finishes s =
      (more : List (GroupStep C M E)) × (t : GroupTask C M E) × (group_steps ops len more s
        ≡ some t)
      × (length more ≤ 3)
      × (t.found ≡ some (len s.keys.inner))

  finish :
      (s : GroupTask C M E) (rs : List (PollResult E))
      → s.poll_results ≡ rs
      → length rs ≤ 1
      → s.found ≡ none
      → s.poll_sends ≡ some (ok tt)
      → Finishes s
  unfolding group_steps group_step Finishes
  finish s [] e l f p = (
    send_result ∷ read_result ∷ [],
    record s { poll_results = []; poll_sends = none; found = some (len s.keys.inner) },
    rw (p, e, f) refl,
    omega arith,
    refl,
  )
  finish s (ok u ∷ []) e l f p = (
    read_result ∷ [],
    record s { poll_results = []; found = some (len s.keys.inner) },
    rw (f, e) refl,
    omega arith,
    refl,
  )
  finish s (err x ∷ []) e l f p = (
    read_result ∷ send_result ∷ read_result ∷ [],
    record s { poll_results = []; poll_sends = none; found = some (len s.keys.inner) },
    rw (f, e, p) refl,
    omega arith,
    refl,
  )
  finish s (x ∷ y ∷ rs) e l f p = absurd (omega arith)

  -- After anything the tasks of a group do from its start, while the keys are waited for and a poll has
  -- succeeded whose result is to be sent, there are steps, three at most, after which the number of
  -- keys that there are is found.
  pub waiting-finds :
      (acts : List (GroupStep C M E)) (s t : GroupTask C M E)
      → s.poll_results ≡ []
      → group_steps ops len acts s ≡ some t
      → t.found ≡ none
      → t.poll_sends ≡ some (ok tt)
      → (more : List (GroupStep C M E)) × (u : GroupTask C M E) × (group_steps ops len more t
          ≡ some u)
        × (length more ≤ 3)
        × (u.found ≡ some (len t.keys.inner))
  unfolding Finishes
  waiting-finds acts s t e h f p =
      finish t t.poll_results refl (group_steps-results acts s t (omega (arith, ap length e)) h) f p
