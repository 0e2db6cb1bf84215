-- ===== src/Watcher/Connected.antt =====
-- The watcher of `connect_to`: what it holds when the task waits, and what its receivers are told.
use session_cli.Base.{
  ℕ, zero, suc, ◌≡◌, refl, sym, ◌∙◌, ◌↔◌, Bool, true, false, not, ◌&&◌, List, [], ◌∷◌, ◌++◌,
  Bool-cases, inl, inr, arith,
}
use session_cli.Watcher.{
  pending, disconnected, WatcherReceiver, Watcher, Connection, waiting, ended, busy,
  send_if_modified, wake, wakes, connect_to,
}
use session_cli.Watcher.Combined.{Changed-cases, settles, settles-before, settles-changed, IsSteady}

abbrev pub last_of {ℓ} : {A : Type ℓ} → A → List A → A
last_of a [] = a
last_of a (x ∷ xs) = last_of x xs

module _ {ℓ κ μ} {W : Type ℓ} {R : Type κ} {T : Type μ} (receiver : WatcherReceiver W R T) where
  -- The task waits in a world that has no change for it, with the value of that world in the
  -- watcher, or it met a receiver that is disconnected.
  pub data IsCurrent (w : W) : Connection R T → Type (ℓ ⊔ κ ⊔ μ) where
    is_waiting :
        (r : R) (watcher : Watcher T)
        → receiver.changed r w ≡ pending
        → watcher.value ≡ receiver.borrow r w
        → IsCurrent w (waiting r watcher)
    is_ended :
        (r : R) (at : W) (watcher : Watcher T)
        → receiver.changed r at ≡ disconnected
        → IsCurrent w (ended watcher)

module _ {μ} {T : Type μ} (eq : T → T → Bool) where
  -- Each value differs from the one before.
  abbrev pub all_change : T → List T → Bool
  all_change v [] = true
  all_change v (x ∷ xs) = not (eq v x) && all_change x xs

  pub record IsTold (start : T) (watcher : Watcher T) : Type μ where
    pub changes : all_change start watcher.notified ≡ true
    pub latest : last_of start watcher.notified ≡ watcher.value

  last_of-snoc : (v : T) (xs : List T) (x : T) → last_of v (xs ++ x ∷ []) ≡ x
  last_of-snoc v [] x = refl
  last_of-snoc v (y ∷ ys) x = last_of-snoc y ys x

  all_change-snoc :
      (v : T) (xs : List T) (x : T)
      → all_change v xs ≡ true
      → eq (last_of v xs) x ≡ false
      → all_change v (xs ++ x ∷ []) ≡ true
  all_change-snoc v [] x h e = rw e
  all_change-snoc v (y ∷ ys) x h e = ground (arith, h, e, all_change-snoc y ys x)

  send-IsTold :
      (start new : T) (watcher : Watcher T)
      → IsTold start watcher
      → IsTold start (send_if_modified eq new watcher)
  unfolding send_if_modified
  send-IsTold start new watcher told = elim (Bool-cases (eq watcher.value new)) [
    | inl e ↦ rw e told
    | inr e ↦ rw e (record {
      changes = all_change-snoc start watcher.notified new told.changes (rw told.latest e);
      latest = last_of-snoc start watcher.notified new;
    })
  ]

module _ {ℓ κ μ} {W : Type ℓ} {R : Type κ} {T : Type μ} (eq : T → T → Bool)
    (eq_iff : (a b : T) → (eq a b ≡ true) ↔ (a ≡ b)) (receiver : WatcherReceiver W R T) where
  value-send : (new : T) (watcher : Watcher T) → (send_if_modified eq new watcher).value ≡ new
  unfolding send_if_modified
  value-send new watcher = elim (Bool-cases (eq watcher.value new)) [
    | inl e ↦ rw e ((eq_iff watcher.value new).0 e)
    | inr e ↦ rw e
  ]

  wake-IsCurrent :
      (n : ℕ) (r : R) (w : W) (watcher : Watcher T)
      → settles receiver n r w ≡ true
      → (receiver.changed r w ≡ pending → watcher.value ≡ receiver.borrow r w)
      → IsCurrent receiver w (wake eq receiver n r w watcher)
  unfolding wake
  wake-IsCurrent zero r w watcher h v = elim (Changed-cases (receiver.changed r w)) [
    | inl e ↦ rw (wake, e) (is_waiting r watcher e (v e))
    | inr (inl e) ↦ rw (wake, e) (is_ended r w watcher e)
    | inr (inr (r', e)) ↦
        let (m, p, q) = settles-before receiver zero r r' w e h in ground (arith, p)
  ]
  wake-IsCurrent (suc n) r w watcher h v = elim (Changed-cases (receiver.changed r w)) [
    | inl e ↦ rw (wake, e) (is_waiting r watcher e (v e))
    | inr (inl e) ↦ rw (wake, e) (is_ended r w watcher e)
    | inr (inr (r', e)) ↦
        let next = send_if_modified eq (receiver.borrow r' w) watcher in
        rw (wake, e)
          (wake-IsCurrent n r' w next (sym (settles-changed receiver n r r' w e) ∙ h)
            (λ _. value-send (receiver.borrow r' w) watcher))
  ]

  wakes-IsCurrent :
      (n : ℕ)
      → ((r : R) (w : W) → settles receiver n r w ≡ true)
      → IsSteady receiver
      → (w : W) (ws : List W) (connection : Connection R T) → IsCurrent receiver w connection
      → IsCurrent receiver (last_of w ws) (wakes eq receiver n ws connection)
  unfolding wakes
  wakes-IsCurrent n settle steady w [] (waiting r t) current = current
  wakes-IsCurrent n settle steady w [] (ended t) current = current
  wakes-IsCurrent n settle steady w [] busy current = elim current [ ]
  wakes-IsCurrent n settle steady w (x ∷ ws) _ (is_waiting r t e v) =
      wakes-IsCurrent n settle steady x ws (wake eq receiver n r x t)
        (wake-IsCurrent n r x t (settle r x) (λ g. v ∙ steady r w x e g))
  wakes-IsCurrent n settle steady w (x ∷ ws) _ (is_ended r at t e) = is_ended r at t e

  -- A receiver that settles within `n` changes of any world, and that has one value while it has no
  -- change: given `n` turns for each world, after any worlds the task of `connect_to` waits in the
  -- last of them with its value in the watcher, unless the receiver was disconnected.
  pub connect_to-IsCurrent :
      (n : ℕ)
      → ((r : R) (w : W) → settles receiver n r w ≡ true)
      → IsSteady receiver
      → (r : R) (w : W) (ws : List W) (watcher : Watcher T)
      → IsCurrent receiver (last_of w ws) (connect_to eq receiver n r w ws watcher)
  unfolding connect_to
  connect_to-IsCurrent n settle steady r w ws watcher =
      let first = send_if_modified eq (receiver.borrow r w) watcher in
      wakes-IsCurrent n settle steady w ws (wake eq receiver n r w first)
        (wake-IsCurrent n r w first (settle r w) (λ _. value-send (receiver.borrow r w) watcher))

module _ {ℓ κ μ} {W : Type ℓ} {R : Type κ} {T : Type μ} (eq : T → T → Bool)
    (receiver : WatcherReceiver W R T) where
  -- What the task told, in whatever state it is.
  pub data Told (start : T) : Connection R T → Type (κ ⊔ μ) where
    told_waiting : (r : R) (t : Watcher T) → IsTold eq start t → Told start (waiting r t)
    told_ended : (t : Watcher T) → IsTold eq start t → Told start (ended t)
    told_busy : Told start busy

  wake-Told :
      (n : ℕ) (start : T) (r : R) (w : W) (watcher : Watcher T)
      → IsTold eq start watcher
      → Told start (wake eq receiver n r w watcher)
  unfolding wake
  wake-Told zero start r w watcher told = elim (Changed-cases (receiver.changed r w)) [
    | inl e ↦ rw (wake, e) (told_waiting r watcher told)
    | inr (inl e) ↦ rw (wake, e) (told_ended watcher told)
    | inr (inr (r', e)) ↦ rw (wake, e) told_busy
  ]
  wake-Told (suc n) start r w watcher told = elim (Changed-cases (receiver.changed r w)) [
    | inl e ↦ rw (wake, e) (told_waiting r watcher told)
    | inr (inl e) ↦ rw (wake, e) (told_ended watcher told)
    | inr (inr (r', e)) ↦
        let new = receiver.borrow r' w in
        rw (wake, e)
          (wake-Told n start r' w (send_if_modified eq new watcher)
            (send-IsTold eq start new watcher told))
  ]

  wakes-Told :
      (n : ℕ) (start : T) (ws : List W) (connection : Connection R T)
      → Told start connection
      → Told start (wakes eq receiver n ws connection)
  unfolding wakes
  wakes-Told n start [] (waiting r t) told = told
  wakes-Told n start (w ∷ ws) _ (told_waiting r t told) =
      wakes-Told n start ws (wake eq receiver n r w t) (wake-Told n start r w t told)
  wakes-Told n start ws (ended t) told = told
  wakes-Told n start ws busy told = told

  -- Whatever the worlds and the turns, each value that the watcher's receivers are notified of
  -- differs from the one before, the first from what the watcher held, and the last is what it holds.
  pub connect_to-Told :
      (n : ℕ) (r : R) (w : W) (ws : List W) (start : T)
      → Told start (connect_to eq receiver n r w ws (record { value = start; notified = [] }))
  unfolding connect_to
  connect_to-Told n r w ws start =
      let watcher : Watcher T = record { value = start; notified = [] } in
      let new = receiver.borrow r w in
      let first = send_if_modified eq new watcher in
      wakes-Told n start ws (wake eq receiver n r w first) (
        wake-Told n start r w first
          (send-IsTold eq start new watcher (record { changes = refl; latest = refl })))
