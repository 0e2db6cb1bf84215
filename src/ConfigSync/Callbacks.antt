-- ===== src/ConfigSync/Callbacks.antt =====
-- Every callback that waits for a push is answered, once.
use session_cli.Base.{
  ℕ, ◌+◌, ◌≡◌, refl, ap, ◌∙◌, Bool, true, false, ◌&&◌, List, [], ◌∷◌, ◌++◌, Option, none, some,
  Result, ok, err, arith, Bool-cases, ◌⊎◌, Option-cases, Result-cases, inl, inr, ltb, append-nil,
}
use session_cli.Batcher.Queue.{count, count-append}
use session_cli.ConfigSync.{
  SyncOps, ConfigWrapper, callbacks, answer_all, new, request_push, send_request, end_push_loop,
  notify, merge_messages, do_mutate, mutate, mutate_and_await_push, confirm, push_if_needed,
  push_turn, count_true,
}

abbrev pub answered_callers {ℓ} : {E : Type ℓ} → List (ℕ × Result E (Unit {0})) → List ℕ
answered_callers [] = []
answered_callers ((c, _) ∷ rest) = c ∷ answered_callers rest

answered_callers-append {ℓ} :
    {E : Type ℓ} (xs ys : List (ℕ × Result E (Unit {0})))
    → answered_callers (xs ++ ys) ≡ answered_callers xs ++ answered_callers ys
answered_callers-append [] ys = refl
answered_callers-append ((c, _) ∷ xs) ys = ap (◌∷◌ c) (answered_callers-append xs ys)

answered_callers-answer_all {ℓ} :
    {E : Type ℓ} (r : Result E (Unit {0})) (cs : List ℕ) → answered_callers (answer_all r cs) ≡ cs
unfolding answer_all
answered_callers-answer_all r [] = refl
answered_callers-answer_all r (c ∷ cs) = ap (◌∷◌ c) (answered_callers-answer_all r cs)

callbacks-append : (q r : List (Option ℕ)) → callbacks (q ++ r) ≡ callbacks q ++ callbacks r
unfolding callbacks
callbacks-append [] r = refl
callbacks-append (none ∷ q) r = callbacks-append q r
callbacks-append (some c ∷ q) r = ap (◌∷◌ c) (callbacks-append q r)

module _ {ℓ κ} {C : Type ℓ} {E : Type κ} where
  -- How often a callback waits, was answered or was dropped.
  abbrev pub total : ℕ → ConfigWrapper C E → ℕ
  total c w =
      count c (callbacks w.push_requests)
      + count c (answered_callers w.answered)
      + count c w.dropped

  -- The answered, dropped and waiting callbacks of a wrapper are those of another.
  abbrev IsQuiet : ConfigWrapper C E → ConfigWrapper C E → Type κ
  IsQuiet w v =
      (v.answered ≡ w.answered)
      × (callbacks v.push_requests ≡ callbacks w.push_requests)
      × (v.dropped ≡ w.dropped)
      × (v.receiver ≡ w.receiver)

  -- The push loop is there and nothing was dropped, or it is not and no callback waits.
  abbrev pub IsOpenOrEmpty : ConfigWrapper C E → Type 0
  IsOpenOrEmpty w =
      ((w.receiver ≡ true) × (w.dropped ≡ []))
      ⊎ ((w.receiver ≡ false) × (callbacks w.push_requests ≡ []))

  quiet_open : (w v : ConfigWrapper C E) → IsQuiet w v → IsOpenOrEmpty w → IsOpenOrEmpty v
  quiet_open w v q (inl (a, b)) = inl (q.3 ∙ a, q.2 ∙ b)
  quiet_open w v q (inr (a, b)) = inr (q.3 ∙ a, q.1 ∙ b)

module _ {ℓ κ μ} {C : Type ℓ} {M : Type κ} {E : Type μ} (ops : SyncOps C M E) where
  send_open :
      (cb : Option ℕ) (w : ConfigWrapper C E)
      → w.receiver ≡ true
      → send_request ops cb w ≡ record w { push_requests = w.push_requests ++ cb ∷ [] }
  unfolding send_request
  send_open cb w e = rw (send_request, e)

  send_closed :
      (cb : Option ℕ) (w : ConfigWrapper C E)
      → w.receiver ≡ false
      → send_request ops cb w ≡ record w { dropped = w.dropped ++ callbacks (cb ∷ []) }
  unfolding send_request
  send_closed cb w e = rw (send_request, e)

  total-send_request :
      (c : ℕ) (cb : Option ℕ) (w : ConfigWrapper C E)
      → total c (send_request ops cb w) ≡ total c w + count c (callbacks (cb ∷ []))
  total-send_request c cb w = elim (Bool-cases w.receiver) [
    | inl e ↦
        ap (total c) (send_open cb w e)
        ∙ omega (
          arith,
          ap (count c) (callbacks-append w.push_requests (cb ∷ [])),
          count-append c (callbacks w.push_requests) (callbacks (cb ∷ [])),
        )
    | inr e ↦
        ap (total c) (send_closed cb w e)
        ∙ omega (arith, count-append c w.dropped (callbacks (cb ∷ [])))
  ]

  total-request_push :
      (c : ℕ) (wanted : Bool) (cb : Option ℕ) (w : ConfigWrapper C E)
      → total c (request_push ops wanted cb w) ≡ total c w + count c (callbacks (cb ∷ []))
  unfolding request_push callbacks
  total-request_push c true (some b) w = total-send_request c (some b) w
  total-request_push c false (some b) w = omega (
    arith,
    ap (count c) (answered_callers-append w.answered ((b, ok tt) ∷ [])),
    count-append c (answered_callers w.answered) (b ∷ []),
  )
  total-request_push c true none w = total-send_request c none w
  total-request_push c false none w = omega arith

  total-notify : (c : ℕ) (b : Bool) (w : ConfigWrapper C E) → total c (notify ops b w) ≡ total c w
  unfolding notify
  total-notify c true w = refl
  total-notify c false w = refl

  total-merge :
      (c : ℕ) (ms : List M) (w : ConfigWrapper C E)
      → total c (merge_messages ops ms w).1 ≡ total c w
  unfolding merge_messages callbacks
  total-merge c [] w = refl
  total-merge c (m ∷ ms) w =
      let (merged, after) = ops.merge (m ∷ ms) w.inner in
      let changed = ltb 0 (count_true merged) in
      omega (
        arith,
        total-request_push c (ops.needs_push after) none
            (notify ops changed (record w { inner = after })),
        total-notify c changed (record w { inner = after }),
      )

  pub total-do_mutate {ν} :
      {T : Type ν} (c : ℕ) (can : Bool) (f : C → T × C) (cb : Option ℕ) (w : ConfigWrapper C E)
      → total c (do_mutate ops can f cb w).1 ≡ total c w + count c (callbacks (cb ∷ []))
  unfolding do_mutate callbacks
  total-do_mutate c can f cb w =
      let after = (f w.inner).1 in
      omega (
        arith,
        total-request_push c (ops.needs_push after && can) cb
            (notify ops (ops.needs_dump after) (record w { inner = after })),
        total-notify c (ops.needs_dump after) (record w { inner = after }),
      )

  request_push-IsQuiet :
      (wanted : Bool) (w : ConfigWrapper C E) → IsQuiet w (request_push ops wanted none w)
  unfolding request_push callbacks
  request_push-IsQuiet false w = (refl, refl, refl, refl)
  request_push-IsQuiet true w = elim (Bool-cases w.receiver) [
    | inl e ↦ rw (send_open none w e) (
      refl,
      callbacks-append w.push_requests (none ∷ []) ∙ append-nil (callbacks w.push_requests),
      refl,
      refl,
    )
    | inr e ↦ rw (send_closed none w e) (refl, refl, append-nil w.dropped, refl)
  ]

  notify-IsQuiet : (b : Bool) (w : ConfigWrapper C E) → IsQuiet w (notify ops b w)
  unfolding notify
  notify-IsQuiet true w = (refl, refl, refl, refl)
  notify-IsQuiet false w = (refl, refl, refl, refl)

  do_mutate-IsQuiet {ν} :
      {T : Type ν} (can : Bool) (f : C → T × C) (w : ConfigWrapper C E)
      → IsQuiet w (do_mutate ops can f none w).1
  unfolding do_mutate
  do_mutate-IsQuiet can f w =
      let c = (f w.inner).1 in
      let told = notify ops (ops.needs_dump c) (record w { inner = c }) in
      let first = notify-IsQuiet (ops.needs_dump c) (record w { inner = c }) in
      let second = request_push-IsQuiet (ops.needs_push c && can) told in
      (second.0 ∙ first.0, second.1 ∙ first.1, second.2 ∙ first.2, second.3 ∙ first.3)

  merge-IsQuiet : (ms : List M) (w : ConfigWrapper C E) → IsQuiet w (merge_messages ops ms w).1
  unfolding merge_messages
  merge-IsQuiet [] w = (refl, refl, refl, refl)
  merge-IsQuiet (m ∷ ms) w =
      let (merged, c) = ops.merge (m ∷ ms) w.inner in
      let changed = ltb 0 (count_true merged) in
      let told = notify ops changed (record w { inner = c }) in
      let first = notify-IsQuiet changed (record w { inner = c }) in
      let second = request_push-IsQuiet (ops.needs_push c) told in
      (second.0 ∙ first.0, second.1 ∙ first.1, second.2 ∙ first.2, second.3 ∙ first.3)

  request_push-IsOpenOrEmpty :
      (wanted : Bool) (b : ℕ) (w : ConfigWrapper C E)
      → IsOpenOrEmpty w
      → IsOpenOrEmpty (request_push ops wanted (some b) w)
  unfolding request_push
  request_push-IsOpenOrEmpty false b w h = h
  request_push-IsOpenOrEmpty true b w (inl (e, n)) = rw (send_open (some b) w e) (inl (e, n))
  request_push-IsOpenOrEmpty true b w (inr (e, n)) = rw (send_closed (some b) w e) (inr (e, n))

  await-IsOpenOrEmpty {ν} :
      {T : Type ν} (f : C → T × C) (b : ℕ) (w : ConfigWrapper C E)
      → IsOpenOrEmpty w
      → IsOpenOrEmpty (mutate_and_await_push ops f b w).1
  unfolding do_mutate
  await-IsOpenOrEmpty f b w h =
      let c = (f w.inner).1 in
      let told = notify ops (ops.needs_dump c) (record w { inner = c }) in
      request_push-IsOpenOrEmpty (ops.needs_push c && true) b told
        (quiet_open w told (notify-IsQuiet (ops.needs_dump c) (record w { inner = c })) h)

  push_turn-drops :
      (w : ConfigWrapper C E)
      → ((push_turn ops w).dropped ≡ w.dropped) × ((push_turn ops w).receiver ≡ w.receiver)
  unfolding push_turn confirm
  push_turn-drops w =
      let drained = record w { push_requests = [] } in
      let after = (mutate ops (push_if_needed ops) drained).1 in
      let pushed = do_mutate-IsQuiet true (push_if_needed ops) drained in
      elim (Result-cases ((mutate ops (push_if_needed ops) drained).0)) [
        | inr (e, r) ↦ (ground (arith, pushed), ground (arith, pushed))
        | inl (o, r) ↦ elim (Option-cases o) [
          | inl n ↦ (ground (arith, pushed), ground (arith, pushed))
          | inr (seq, n) ↦
              let confirmed =
                do_mutate-IsQuiet {T = Unit {0}} false (λ c. (tt, ops.confirm_pushed seq c))
                  after in
              (ground (arith, pushed, confirmed), ground (arith, pushed, confirmed))
        ]
      ]

  -- A turn of the push loop answers every callback that waits, all with one result, and leaves none
  -- waiting; those that were answered before stay as they are.
  pub push_turn-answers :
      (w : ConfigWrapper C E)
      → ((r : Result E (Unit {0})) × ((push_turn ops w).answered
            ≡ w.answered ++ answer_all r (callbacks w.push_requests)))
        × (callbacks (push_turn ops w).push_requests ≡ [])
  unfolding push_turn confirm callbacks
  push_turn-answers w =
      let drained = record w { push_requests = [] } in
      let after = (mutate ops (push_if_needed ops) drained).1 in
      let pushed = do_mutate-IsQuiet true (push_if_needed ops) drained in
      elim (Result-cases ((mutate ops (push_if_needed ops) drained).0)) [
        | inr (e, r) ↦ ((err e, ground (arith, pushed)), ground (arith, pushed))
        | inl (o, r) ↦ elim (Option-cases o) [
          | inl n ↦ ((ok tt, ground (arith, pushed)), ground (arith, pushed))
          | inr (seq, n) ↦
              let confirmed =
                do_mutate-IsQuiet {T = Unit {0}} false (λ c. (tt, ops.confirm_pushed seq c))
                  after in
              ((ok tt, ground (arith, pushed, confirmed)), ground (arith, pushed, confirmed))
        ]
      ]

  -- The wrapper, and the callbacks that were handed to it.
  pub record Session : Type (ℓ ⊔ μ) where
    pub wrapper : ConfigWrapper C E
    pub handed : List ℕ

  -- What the tasks do with a config, in any order; the push loop turns on a queue that is not empty,
  -- which it is for good once the loop has ended.
  pub data Use (s : Session) : Session → Type (ℓ ⊔ κ ⊔ μ) where
    merged : (ms : List M) → Use s (record s { wrapper = (merge_messages ops ms s.wrapper).1 })
    mutated : (f : C → Unit {0} × C) → Use s (record s { wrapper = (mutate ops f s.wrapper).1 })
    awaited :
        (f : C → Unit {0} × C) (c : ℕ)
        → Use s (record s {
          wrapper = (mutate_and_await_push ops f c s.wrapper).1;
          handed = c ∷ s.handed;
        })
    turned :
        (o : Option ℕ) (q : List (Option ℕ))
        → s.wrapper.push_requests ≡ o ∷ q
        → Use s (record s { wrapper = push_turn ops s.wrapper })
    ended : Use s (record s { wrapper = end_push_loop ops s.wrapper })

  pub data Uses (s : Session) : Session → Type (ℓ ⊔ κ ⊔ μ) where
    here : Uses s s
    next : {t u : Session} → Uses s t → Use t u → Uses s u

  -- Each callback waits, was answered or was dropped, as often as it was handed over; none was
  -- dropped while the push loop is there, and none waits after it.
  abbrev pub IsAccounted : Session → Type 0
  IsAccounted s = ((c : ℕ) → count c s.handed ≡ total c s.wrapper) × IsOpenOrEmpty s.wrapper

  total-push_turn : (c : ℕ) (w : ConfigWrapper C E) → total c (push_turn ops w) ≡ total c w
  total-push_turn c w =
      let ((r, e), none_left) = push_turn-answers w in
      omega (
        arith,
        ap (λ a. count c (answered_callers a)) e,
        ap (count c)
            (answered_callers-append w.answered (answer_all r (callbacks w.push_requests))),
        count-append c (answered_callers w.answered)
            (answered_callers (answer_all r (callbacks w.push_requests))),
        ap (count c) (answered_callers-answer_all r (callbacks w.push_requests)),
        ap (count c) none_left,
        ap (count c) ((push_turn-drops w).0),
      )

  turn-IsOpenOrEmpty : (w : ConfigWrapper C E) → IsOpenOrEmpty w → IsOpenOrEmpty (push_turn ops w)
  turn-IsOpenOrEmpty w (inl (a, b)) = inl ((push_turn-drops w).1 ∙ a, (push_turn-drops w).0 ∙ b)
  turn-IsOpenOrEmpty w (inr (a, b)) = inr ((push_turn-drops w).1 ∙ a, (push_turn-answers w).1)

  total-end_push_loop : (c : ℕ) (w : ConfigWrapper C E) → total c (end_push_loop ops w) ≡ total c w
  unfolding end_push_loop callbacks
  total-end_push_loop c w = omega (arith, count-append c w.dropped (callbacks w.push_requests))

  end_push_loop-IsOpenOrEmpty : (w : ConfigWrapper C E) → IsOpenOrEmpty (end_push_loop ops w)
  unfolding end_push_loop callbacks
  end_push_loop-IsOpenOrEmpty w = inr (refl, refl)

  Use-IsAccounted : {s t : Session} → Use s t → IsAccounted s → IsAccounted t
  unfolding callbacks
  Use-IsAccounted {s} (merged ms) (h, o) = (
    λ c. omega (arith, h c, total-merge c ms s.wrapper),
    quiet_open s.wrapper (merge_messages ops ms s.wrapper).1 (merge-IsQuiet ms s.wrapper) o,
  )
  Use-IsAccounted {s} (mutated f) (h, o) = (
    λ c. omega (arith, h c, total-do_mutate c true f none s.wrapper),
    quiet_open s.wrapper (mutate ops f s.wrapper).1 (do_mutate-IsQuiet true f s.wrapper) o,
  )
  Use-IsAccounted {s} (awaited f b) (h, o) = (
    λ c. omega (arith, h c, total-do_mutate c true f (some b) s.wrapper),
    await-IsOpenOrEmpty f b s.wrapper o,
  )
  Use-IsAccounted {s} (turned _ q e) (h, o) =
      (λ c. omega (arith, h c, total-push_turn c s.wrapper), turn-IsOpenOrEmpty s.wrapper o)
  Use-IsAccounted {s} ended (h, o) = (
    λ c. omega (arith, h c, total-end_push_loop c s.wrapper),
    end_push_loop-IsOpenOrEmpty s.wrapper,
  )

  Uses-IsAccounted : {s t : Session} → Uses s t → IsAccounted s → IsAccounted t
  Uses-IsAccounted here h = h
  Uses-IsAccounted (next us u) h = Use-IsAccounted u (Uses-IsAccounted us h)

  new-IsAccounted : (c : C) → IsAccounted (record { wrapper = new ops c; handed = [] })
  unfolding new callbacks
  new-IsAccounted c = (λ b. ground arith, inl (refl, refl))

  -- Whatever is done with a config since it was wrapped, the end of the push loop included, a callback
  -- that was handed over to await the push waits in the queue, was answered or was dropped, as often
  -- as it was handed over: none is answered twice, none was dropped while the push loop is there, and
  -- none waits after it.
  pub used-IsAccounted :
      (c : C) {t : Session} → Uses (record { wrapper = new ops c; handed = [] }) t → IsAccounted t
  used-IsAccounted c us = Uses-IsAccounted us (new-IsAccounted c)
