-- ===== src/Batcher/Queue.antt =====
-- What `insert_to_batching` does to the queue.
use session_cli.Base.{
  ℕ, ◌+◌, ◌≤◌, ◌≡◌, refl, ap, true, List, [], ◌∷◌, ◌++◌, arith, ◌==◌, if◌then◌else◌, Bool-cases,
  inl, inr,
}
use session_cli.Batcher.{Batchable, Pending, Batch, requests, callers, fits, insert_to_batching}

-- How often a caller stands in a list.
abbrev pub count : ℕ → List ℕ → ℕ
count c [] = 0
count c (x ∷ xs) = (if x == c then 1 else 0) + count c xs

pub count-append : (c : ℕ) (xs ys : List ℕ) → count c (xs ++ ys) ≡ count c xs + count c ys
count-append c [] ys = omega arith
count-append c (x ∷ xs) ys = omega (arith, count-append c xs ys)

module _ {ℓ κ} {A : Type ℓ} {I : Type κ} where
  abbrev pub queued_callers : List (Batch A I) → List ℕ
  queued_callers [] = []
  queued_callers (b ∷ bs) = callers (requests b) ++ queued_callers bs

  -- The deadlines do not fall from the front of the queue to its end, and lie between two bounds.
  abbrev pub IsOrdered : ℕ → ℕ → List (Batch A I) → Type 0
  IsOrdered low high [] = Unit
  IsOrdered low high (b ∷ bs) =
      (low ≤ b.deadline) × (b.deadline ≤ high) × IsOrdered b.deadline high bs

  pub IsOrdered-weaken :
      (low high high' : ℕ) (q : List (Batch A I))
      → high ≤ high'
      → IsOrdered low high q
      → IsOrdered low high' q
  IsOrdered-weaken low high high' [] le h = tt
  IsOrdered-weaken low high high' (b ∷ bs) le h =
      (h.0, omega arith, IsOrdered-weaken b.deadline high high' bs le h.2)

  pub IsOrdered-lower :
      (low low' high : ℕ) (q : List (Batch A I))
      → low' ≤ low
      → IsOrdered low high q
      → IsOrdered low' high q
  IsOrdered-lower low low' high [] le h = tt
  IsOrdered-lower low low' high (b ∷ bs) le h = (omega arith, h.1, h.2)

  -- The callers of two lists of batches are those of the one and those of the other.
  pub count_queued-append :
      (c : ℕ) (xs ys : List (Batch A I))
      → count c (queued_callers (xs ++ ys))
        ≡ count c (queued_callers xs) + count c (queued_callers ys)
  count_queued-append c [] ys = omega arith
  count_queued-append c (b ∷ xs) ys = omega (
    arith,
    count-append c (callers b.rest) (queued_callers (xs ++ ys)),
    count-append c (callers b.rest) (queued_callers xs),
    count_queued-append c xs ys,
  )

  callers-append :
      (xs : List (Pending A I)) (r : Pending A I)
      → callers (xs ++ r ∷ []) ≡ callers xs ++ r.caller ∷ []
  callers-append [] r = refl
  callers-append (x ∷ xs) r = rw (callers-append xs r)

module _ {ℓ κ} {A : Type ℓ} {I : Type κ} (args : Batchable A) (inputs : Batchable I) where
  -- Every request of a batch fits the batch.
  abbrev pub AllFit : Batch A I → List (Pending A I) → Type 0
  AllFit b [] = Unit
  AllFit b (r ∷ rs) = (fits args inputs b r ≡ true) × AllFit b rs

  abbrev pub AllUniform : List (Batch A I) → Type 0
  AllUniform [] = Unit
  AllUniform (b ∷ bs) = AllFit b b.rest × AllUniform bs

  module _ (req : Pending A I) (now window : ℕ) where
    -- The queue gains the caller of the request once, and loses none.
    pub count-insert :
        (c : ℕ) (q : List (Batch A I))
        → count c (queued_callers (insert_to_batching args inputs q req now window))
          ≡ count c (queued_callers q) + (if req.caller == c then 1 else 0)
    unfolding insert_to_batching
    count-insert c [] = omega arith
    count-insert c (b ∷ bs) = elim (Bool-cases (fits args inputs b req)) [
      | inl f ↦ rw f (
          let old = count-append c (callers b.rest) (queued_callers bs) in
          let new = count-append c (callers (b.rest ++ req ∷ [])) (queued_callers bs) in
          let joined = ap (count c) (callers-append b.rest req) in
          let last = count-append c (callers b.rest) (req.caller ∷ []) in
          omega (arith, old, new, joined, last))
      | inr n ↦ rw n (
          let old = count-append c (callers b.rest) (queued_callers bs) in
          let new =
            count-append c (callers b.rest)
              (queued_callers (insert_to_batching args inputs bs req now window)) in
          omega (arith, old, new, count-insert c bs))
    ]

    AllFit-append :
        (b : Batch A I) (rs : List (Pending A I))
        → AllFit b rs
        → fits args inputs b req ≡ true
        → AllFit b (rs ++ req ∷ [])
    AllFit-append b [] h f = (f, tt)
    AllFit-append b (r ∷ rs) h f = (h.0, AllFit-append b rs h.1 f)

    -- A request joins only a batch that it fits.
    pub insert-AllUniform :
        (q : List (Batch A I))
        → AllUniform q
        → AllUniform (insert_to_batching args inputs q req now window)
    unfolding insert_to_batching fits
    insert-AllUniform [] h = (tt, tt)
    insert-AllUniform (b ∷ bs) h = elim (Bool-cases (fits args inputs b req)) [
      | inl f ↦ rw f (AllFit-append b b.rest h.0 f, h.1)
      | inr n ↦ rw n (h.0, insert-AllUniform bs h.1)
    ]

    -- A request that is inserted no earlier than the others keeps the queue in the order of its
    -- deadlines, none of them later than a window from now.
    pub insert-IsOrdered :
        (low : ℕ) (q : List (Batch A I))
        → low ≤ now + window
        → IsOrdered low (now + window) q
        → IsOrdered low (now + window) (insert_to_batching args inputs q req now window)
    unfolding insert_to_batching
    insert-IsOrdered low [] le h = (le, omega arith, tt)
    insert-IsOrdered low (b ∷ bs) le h = elim (Bool-cases (fits args inputs b req)) [
      | inl f ↦ rw f h
      | inr n ↦ rw n (h.0, h.1, insert-IsOrdered b.deadline bs h.1 h.2)
    ]
