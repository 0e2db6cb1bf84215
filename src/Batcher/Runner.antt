-- ===== src/Batcher/Runner.antt =====
-- The loop of `BatchRPCExecutorRunner::run`: it takes requests, starts the front batch when its
-- deadline is over, and finishes running batches in any order.
use session_cli.Base.{ℕ, ◌+◌, ◌≤◌, ◌≡◌, refl, ap, List, [], ◌∷◌, ◌++◌, arith}
use session_cli.Batcher.Queue.{
  count, count-append, queued_callers, IsOrdered, IsOrdered-weaken, IsOrdered-lower,
  count_queued-append, AllUniform, count-insert, insert-AllUniform, insert-IsOrdered,
}
use session_cli.Batcher.Replies.{replied, replied-run_batch}
use session_cli.Batcher.{
  Batchable, Pending, Batch, callers, Reply, Upstream, insert_to_batching, run_batch,
}

-- The queue, the batches in the join set, the replies sent, the callers whose requests were taken,
-- and the time.
pub record Runner {ℓ κ μ ν} (A : Type ℓ) (I : Type κ) (O : Type μ) (E : Type ν)
    : Type (ℓ ⊔ κ ⊔ μ ⊔ ν) where
  pub batching : List (Batch A I)
  pub running : List (Batch A I)
  pub replies : List (ℕ × Reply O E)
  pub taken : List ℕ
  pub clock : ℕ

replied-append {ℓ κ} :
    {O : Type ℓ} {E : Type κ} (xs ys : List (ℕ × Reply O E))
    → replied (xs ++ ys) ≡ replied xs ++ replied ys
replied-append [] ys = refl
replied-append ((c, _) ∷ xs) ys = ap (◌∷◌ c) (replied-append xs ys)

module _ {ℓ κ μ ν} {A : Type ℓ} {I : Type κ} {O : Type μ} {E : Type ν} (args : Batchable A)
    (inputs : Batchable I) (window : ℕ) where
  abbrev pub initial : Runner A I O E
  initial = record { batching = []; running = []; replies = []; taken = []; clock = 0 }

  unfoldable pub receive : Pending A I → ℕ → Runner A I O E → Runner A I O E
  receive req now s = record s {
    batching = insert_to_batching args inputs s.batching req now window;
    taken = req.caller ∷ s.taken;
    clock = now;
  }

  -- A turn of the loop. Time does not go back; the upstream call is one of the environment's choice.
  pub data Step (s : Runner A I O E) : Runner A I O E → Type (ℓ ⊔ κ ⊔ μ ⊔ ν) where
    take_request : (req : Pending A I) (now : ℕ) → s.clock ≤ now → Step s (receive req now s)
    start_front :
        (front : Batch A I) (others : List (Batch A I)) (now : ℕ)
        → s.clock ≤ now
        → front.deadline ≤ now
        → s.batching ≡ front ∷ others
        → Step s (record s { batching = others; running = s.running ++ front ∷ []; clock = now })
    finish :
        (upstream : Upstream A I O E) (left right : List (Batch A I)) (done : Batch A I) (now : ℕ)
        → s.clock ≤ now
        → s.running ≡ left ++ done ∷ right
        → Step s (record s {
          running = left ++ right;
          replies = s.replies ++ run_batch upstream done;
          clock = now;
        })

  pub data Reach (s : Runner A I O E) : Runner A I O E → Type (ℓ ⊔ κ ⊔ μ ⊔ ν) where
    here : Reach s s
    next : {t u : Runner A I O E} → Reach s t → Step t u → Reach s u

  -- Every request that was taken is in the queue, in a running batch, or replied to, exactly once;
  -- the queued batches are uniform, and in the order of deadlines within the window.
  pub record IsSound (s : Runner A I O E) : Type (ℓ ⊔ κ) where
    pub accounted :
        (c : ℕ)
        → count c s.taken
          ≡ count c (queued_callers s.batching)
            + count c (queued_callers s.running)
            + count c (replied s.replies)
    pub uniform : AllUniform args inputs s.batching
    pub ordered : IsOrdered 0 (s.clock + window) s.batching

  receive-IsSound :
      (req : Pending A I) (now : ℕ) (s : Runner A I O E)
      → s.clock ≤ now
      → IsSound s
      → IsSound (receive req now s)
  unfolding receive
  receive-IsSound req now s le h = record {
    accounted =
        λ c. omega (arith, h.accounted c, count-insert args inputs req now window c s.batching);
    uniform = insert-AllUniform args inputs req now window s.batching h.uniform;
    ordered =
        insert-IsOrdered args inputs req now window 0 s.batching (omega arith)
          (IsOrdered-weaken 0 (s.clock + window) (now + window) s.batching (omega arith) h.ordered);
  }

  start-IsSound :
      (front : Batch A I) (others : List (Batch A I)) (now : ℕ) (s : Runner A I O E)
      → s.clock ≤ now
      → s.batching ≡ front ∷ others
      → IsSound s
      → IsSound (record s { batching = others; running = s.running ++ front ∷ []; clock = now })
  start-IsSound front others now s le e h =
      let was : IsOrdered 0 (s.clock + window) (front ∷ others) = rw e at h.ordered in
      let kept : AllUniform args inputs (front ∷ others) = rw e at h.uniform in
      record {
        accounted = λ c. omega (
          arith,
          h.accounted c,
          ap (λ q. count c (queued_callers q)) e,
          count-append c (callers front.rest) (queued_callers others),
          count-append c (callers front.rest) [],
          count_queued-append c s.running (front ∷ []),
        );
        uniform = kept.1;
        ordered = IsOrdered-lower front.deadline 0 (now + window) others (omega arith) (
            IsOrdered-weaken front.deadline (s.clock + window) (now + window) others (omega arith)
              was.2);
      }

  finish-IsSound :
      (upstream : Upstream A I O E) (left right : List (Batch A I)) (done : Batch A I) (now : ℕ)
      (s : Runner A I O E)
      → s.clock ≤ now
      → s.running ≡ left ++ done ∷ right
      → IsSound s
      → IsSound (record s {
        running = left ++ right;
        replies = s.replies ++ run_batch upstream done;
        clock = now;
      })
  finish-IsSound upstream left right done now s le e h = record {
    accounted = λ c. omega (
      arith,
      h.accounted c,
      ap (λ q. count c (queued_callers q)) e,
      count_queued-append c left (done ∷ right),
      count_queued-append c left right,
      count-append c (callers done.rest) (queued_callers right),
      ap (count c) (replied-append s.replies (run_batch upstream done)),
      count-append c (replied s.replies) (replied (run_batch upstream done)),
      ap (count c) (replied-run_batch upstream done),
    );
    uniform = h.uniform;
    ordered =
        IsOrdered-weaken 0 (s.clock + window) (now + window) s.batching (omega arith) h.ordered;
  }

  Step-IsSound : {s t : Runner A I O E} → Step s t → IsSound s → IsSound t
  Step-IsSound {s} (take_request req now le) h = receive-IsSound req now s le h
  Step-IsSound {s} (start_front front others now le due e) h =
      start-IsSound front others now s le e h
  Step-IsSound {s} (finish upstream left right done now le e) h =
      finish-IsSound upstream left right done now s le e h

  Reach-IsSound : {s t : Runner A I O E} → Reach s t → IsSound s → IsSound t
  Reach-IsSound here h = h
  Reach-IsSound (next r st) h = Step-IsSound st (Reach-IsSound r h)

  -- In every state that the loop reaches each request taken is accounted for exactly once, in the
  -- queue, in a running batch or by a reply; every request of a queued batch fits its head; and the
  -- queue is in the order of deadlines, none later than a window from now.
  pub reached-IsSound : {s : Runner A I O E} → Reach initial s → IsSound s
  reached-IsSound r = Reach-IsSound r (record { accounted = λ c. refl; uniform = tt; ordered = tt })

  -- When the loop has nothing queued and nothing running, every caller has been sent as many replies
  -- as requests of it were taken.
  pub drained_replies :
      {s : Runner A I O E} (c : ℕ)
      → Reach initial s
      → s.batching ≡ []
      → s.running ≡ []
      → count c (replied s.replies) ≡ count c s.taken
  drained_replies {s} c r q e = omega (
    arith,
    (reached-IsSound r).accounted c,
    ap (λ x. count c (queued_callers x)) q,
    ap (λ x. count c (queued_callers x)) e,
  )
