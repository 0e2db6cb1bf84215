-- ===== src/Watcher/Combined.antt =====
-- What the receivers that are made of others keep of them: how many changes in a row they report of
-- a world that stays as it is, and that a receiver with no change has the value it had.
use session_cli.Base.{
  ℕ, zero, suc, ◌+◌, ◌≡◌, refl, sym, ap, ◌∙◌, Bool, true, false, ◌⊎◌, inl, inr, arith,
}
use session_cli.Watcher.{
  Changed, pending, changed_to, disconnected, WatcherReceiver, map_receiver, try_select,
  combine_watcher_receivers,
}

pub Changed-cases {ℓ} :
    {R : Type ℓ} (c : Changed R)
    → (c ≡ pending) ⊎ ((c ≡ disconnected) ⊎ ((r : R) × (c ≡ changed_to r)))
Changed-cases pending = inl refl
Changed-cases disconnected = inr (inl refl)
Changed-cases (changed_to r) = inr (inr (r, refl))

module _ {ℓ κ μ} {W : Type ℓ} {R : Type κ} {T : Type μ} (receiver : WatcherReceiver W R T) where
  -- No more than so many changes are reported of one world.
  unfoldable pub settles : ℕ → R → W → Bool
  settles zero r w = elim (receiver.changed r w) [
    | pending ↦ true
    | disconnected ↦ true
    | changed_to _ ↦ false
  ]
  settles (suc n) r w = elim (receiver.changed r w) [
    | pending ↦ true
    | disconnected ↦ true
    | changed_to r' ↦ settles n r' w
  ]

  -- Of the worlds in which a receiver has no change, it has one value.
  abbrev pub IsSteady : Type (ℓ ⊔ κ ⊔ μ)
  IsSteady =
      (r : R) (w w' : W)
      → receiver.changed r w ≡ pending
      → receiver.changed r w' ≡ pending
      → receiver.borrow r w ≡ receiver.borrow r w'

  settles-pending : (n : ℕ) (r : R) (w : W) → receiver.changed r w ≡ pending → settles n r w ≡ true
  unfolding settles
  settles-pending zero r w e = ground (arith, e)
  settles-pending (suc n) r w e = ground (arith, e)

  settles-disconnected :
      (n : ℕ) (r : R) (w : W) → receiver.changed r w ≡ disconnected → settles n r w ≡ true
  unfolding settles
  settles-disconnected zero r w e = ground (arith, e)
  settles-disconnected (suc n) r w e = ground (arith, e)

  pub settles-changed :
      (n : ℕ) (r r' : R) (w : W)
      → receiver.changed r w ≡ changed_to r'
      → settles (suc n) r w ≡ settles n r' w
  unfolding settles
  settles-changed n r r' w e = rw (settles, e)

  pub settles-before :
      (n : ℕ) (r r' : R) (w : W)
      → receiver.changed r w ≡ changed_to r'
      → settles n r w ≡ true
      → (m : ℕ) × (n ≡ suc m) × (settles m r' w ≡ true)
  unfolding settles
  settles-before zero r r' w e h = ground (arith, e, h)
  settles-before (suc m) r r' w e h = (m, refl, sym (settles-changed m r r' w e) ∙ h)

try_select-pending {ℓ κ} :
    {R : Type ℓ} {S : Type κ} (r : R) (s : S) (c : Changed R) (d : Changed S)
    → try_select r s c d ≡ pending
    → (c ≡ pending) × (d ≡ pending)
unfolding try_select
try_select-pending r s pending pending e = (refl, refl)
try_select-pending r s pending disconnected e = ground (arith, e)
try_select-pending r s pending (changed_to s') e = ground (arith, e)
try_select-pending r s disconnected d e = ground (arith, e)
try_select-pending r s (changed_to r') d e = ground (arith, e)

module _ {ℓ κ μ ν ξ ρ} {W : Type ℓ} {R : Type κ} {S : Type μ} {T : Type ν} {U : Type ξ} {V : Type ρ}
    (one : WatcherReceiver W R T) (two : WatcherReceiver W S U) (f : T → U → V) where
  abbrev combine : WatcherReceiver W (R × S) V
  combine = combine_watcher_receivers one two f

  -- What the combined receiver does of receivers that settle.
  combine_turn :
      (n m : ℕ) (r : R) (s : S) (w : W)
      → settles one n r w ≡ true
      → settles two m s w ≡ true
      → (combine.changed (r, s) w ≡ pending)
        ⊎ ((combine.changed (r, s) w ≡ disconnected)
            ⊎ ((n' : ℕ) × (m' : ℕ) × (r' : R) × (s' : S) × (combine.changed (r, s) w
                  ≡ changed_to (r', s'))
                × (n + m ≡ suc (n' + m'))
                × (settles one n' r' w ≡ true)
                × (settles two m' s' w ≡ true)))
  unfolding combine_watcher_receivers try_select
  combine_turn n m r s w h k = elim (Changed-cases (one.changed r w)) [
    | inr (inl e) ↦ inr (inl (rw (e, try_select)))
    | inr (inr (r', e)) ↦
        let (n', p, q) = settles-before one n r r' w e h in
        inr (inr (n', m, r', s, rw (e, try_select), omega (arith, p), q, k))
    | inl e ↦ elim (Changed-cases (two.changed s w)) [
      | inl g ↦ inl (rw (e, g, try_select))
      | inr (inl g) ↦ inr (inl (rw (e, g, try_select)))
      | inr (inr (s', g)) ↦
          let (m', p, q) = settles-before two m s s' w g k in
          inr (inr (n, m', r, s', rw (e, g, try_select), omega (arith, p), h, q))
    ]
  ]

  combine_total :
      (k n m : ℕ) (r : R) (s : S) (w : W)
      → k ≡ n + m
      → settles one n r w ≡ true
      → settles two m s w ≡ true
      → settles combine k (r, s) w ≡ true
  combine_total zero n m r s w p h q = elim (combine_turn n m r s w h q) [
    | inl e ↦ settles-pending combine zero (r, s) w e
    | inr (inl e) ↦ settles-disconnected combine zero (r, s) w e
    | inr (inr (_, _, _, _, _, l, _, _)) ↦ ground (arith, p, l)
  ]
  combine_total (suc k) n m r s w p h q = elim (combine_turn n m r s w h q) [
    | inl e ↦ settles-pending combine (suc k) (r, s) w e
    | inr (inl e) ↦ settles-disconnected combine (suc k) (r, s) w e
    | inr (inr (n', m', r', s', e, l, h', q')) ↦
        settles-changed combine k (r, s) (r', s') w e
        ∙ combine_total k n' m' r' s' w (omega (arith, p, l)) h' q'
  ]

  -- Receivers that settle within `n` and `m` changes make one that settles within `n + m`.
  pub combine_settles :
      (n m : ℕ) (r : R) (s : S) (w : W)
      → settles one n r w ≡ true
      → settles two m s w ≡ true
      → settles (combine_watcher_receivers one two f) (n + m) (r, s) w ≡ true
  combine_settles n m r s w h k = combine_total (n + m) n m r s w refl h k

  pub combine-IsSteady :
      IsSteady one → IsSteady two → IsSteady (combine_watcher_receivers one two f)
  unfolding combine_watcher_receivers
  combine-IsSteady h k (r, s) w w' e g =
      let (a, b) = try_select-pending r s (one.changed r w) (two.changed s w) e in
      let (c, d) = try_select-pending r s (one.changed r w') (two.changed s w') g in
      rw (h r w w' a c, k s w w' b d)

pub map-IsSteady {ℓ κ μ ν} :
    {W : Type ℓ} {R : Type κ} {T : Type μ} {U : Type ν} (f : T → U) (old : WatcherReceiver W R T)
    → IsSteady old
    → IsSteady (map_receiver f old)
unfolding map_receiver
map-IsSteady f old h r w w' e g = ap f (h r w w' e g)

pub map_settles {ℓ κ μ ν} :
    {W : Type ℓ} {R : Type κ} {T : Type μ} {U : Type ν} (f : T → U) (old : WatcherReceiver W R T)
    (n : ℕ) (r : R) (w : W)
    → settles old n r w ≡ true
    → settles (map_receiver f old) n r w ≡ true
unfolding map_receiver settles
map_settles f old zero r w h = h
map_settles f old (suc n) r w h = elim (Changed-cases (old.changed r w)) [
  | inl e ↦ settles-pending (map_receiver f old) (suc n) r w e
  | inr (inl e) ↦ settles-disconnected (map_receiver f old) (suc n) r w e
  | inr (inr (r', e)) ↦
      settles-changed (map_receiver f old) n r r' w e
      ∙ map_settles f old n r' w (sym (settles-changed old n r r' w e) ∙ h)
]
