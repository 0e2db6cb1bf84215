-- ===== src/Batcher/Replies.antt =====
-- What `run_batch` sends to the callers of a batch.
use session_cli.Base.{
  ℕ, zero, suc, ◌≡◌, refl, ap, List, [], ◌∷◌, map, none, some, Result, ok, err, Result-cases, inl,
  inr, arith, get_elem?,
}
use session_cli.Batcher.{
  Batch, requests, callers, Reply, answer, failure, cancelled, Upstream, deliver, fail_all,
  run_batch,
}

abbrev pub replied {ℓ κ} : {O : Type ℓ} {E : Type κ} → List (ℕ × Reply O E) → List ℕ
replied [] = []
replied ((c, _) ∷ rs) = c ∷ replied rs

-- The reply to the caller at a place of the batch.
abbrev pub reply_at {ℓ κ} : {O : Type ℓ} {E : Type κ} → Result E (List O) → ℕ → Reply O E
reply_at (err e) i = failure e
reply_at (ok results) i = elim (get_elem? results i) [ none ↦ cancelled | some o ↦ answer o ]

module _ {ℓ κ} (O : Type ℓ) (E : Type κ) where
  replied-deliver : (os : List O) (cs : List ℕ) → replied (deliver {E = E} os cs) ≡ cs
  unfolding deliver
  replied-deliver os [] = refl
  replied-deliver [] (c ∷ cs) = ap (◌∷◌ c) (replied-deliver [] cs)
  replied-deliver (o ∷ os) (c ∷ cs) = ap (◌∷◌ c) (replied-deliver os cs)

  replied-fail_all : (e : E) (cs : List ℕ) → replied (fail_all {O = O} e cs) ≡ cs
  unfolding fail_all
  replied-fail_all e [] = refl
  replied-fail_all e (c ∷ cs) = ap (◌∷◌ c) (replied-fail_all e cs)

  deliver_at :
      (os : List O) (cs : List ℕ) (i c : ℕ)
      → get_elem? cs i ≡ some c
      → get_elem? (deliver {E = E} os cs) i ≡ some (c, reply_at (ok os) i)
  unfolding deliver
  deliver_at os [] i c h = cc
  deliver_at [] (d ∷ cs) zero c h = ground arith
  deliver_at [] (d ∷ cs) (suc i) c h = deliver_at [] cs i c h
  deliver_at (o ∷ os) (d ∷ cs) zero c h = ground arith
  deliver_at (o ∷ os) (d ∷ cs) (suc i) c h = deliver_at os cs i c h

  fail_at :
      (e : E) (cs : List ℕ) (i c : ℕ)
      → get_elem? cs i ≡ some c
      → get_elem? (fail_all {O = O} e cs) i ≡ some (c, failure e)
  unfolding fail_all
  fail_at e [] i c h = cc
  fail_at e (d ∷ cs) zero c h = ground arith
  fail_at e (d ∷ cs) (suc i) c h = fail_at e cs i c h

module _ {ℓ κ μ ν} {A : Type ℓ} {I : Type κ} {O : Type μ} {E : Type ν} where
  -- Every caller of the batch is sent exactly one reply, in the order of the requests.
  pub replied-run_batch :
      (upstream : Upstream A I O E) (b : Batch A I)
      → replied (run_batch upstream b) ≡ callers (requests b)
  unfolding run_batch
  replied-run_batch upstream b =
      elim (Result-cases (upstream b.head.args (map (λ r. r.input) (requests b)))) [
        | inl (os, e) ↦ rw e (replied-deliver O E os (callers (requests b)))
        | inr (x, e) ↦ rw e (replied-fail_all O E x (callers (requests b)))
      ]

  -- The caller of the request at a place of the batch is sent the result at that place, or the error
  -- of the whole batch, or nothing where the results are too few.
  pub run_batch_at :
      (upstream : Upstream A I O E) (b : Batch A I) (i c : ℕ)
      → get_elem? (callers (requests b)) i ≡ some c
      → get_elem? (run_batch upstream b) i
        ≡ some (c, reply_at (upstream b.head.args (map (λ r. r.input) (requests b))) i)
  unfolding run_batch
  run_batch_at upstream b i c h =
      elim (Result-cases (upstream b.head.args (map (λ r. r.input) (requests b)))) [
        | inl (os, e) ↦ rw e (deliver_at O E os (callers (requests b)) i c h)
        | inr (x, e) ↦ rw e (fail_at O E x (callers (requests b)) i c h)
      ]
