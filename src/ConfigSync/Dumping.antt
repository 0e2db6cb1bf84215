-- ===== src/ConfigSync/Dumping.antt =====
-- `dump_config_if_needed`: a config is saved when a change of it is notified. The notifications go
-- through a tokio broadcast channel of capacity 1: a receiver that is behind by more than one gets an
-- error, and the loop, which goes on while it receives, ends.
use session_cli.Base.{
  ℕ, suc, ◌+◌, ◌-◌, ◌≤◌, ◌≡◌, refl, ap, ◌∙◌, Bool, true, false, Bool-cases, inl, inr, ◌&&◌, [],
  ◌||◌, Option, none, some, Result, ok, err, arith, ltb, ◌==◌, if◌then◌else◌,
}
use session_cli.Base.Text.{Text, text_eq_refl}
use session_cli.ConfigSync.{
  SyncOps, ConfigWrapper, do_mutate, mutate, request_push, send_request, notify, confirm, push_turn,
  push_if_needed,
}
use session_cli.ConfigTables.{SavedRows}
use session_cli.ConfigTables.Groups.{same_member}
use session_cli.ConfigTables.Dumps.{
  DumpTable, ConfigOps, save_config_dump_and_rows, get_config_dump, get_config_dump-save, id_text,
  dump_of,
}

-- The task: how many notifications it received, whether its loop ended, and the tables it writes.
pub record Dumping {ℓ κ μ} (C : Type ℓ) (E : Type κ) (T : Type μ) : Type (ℓ ⊔ κ ⊔ μ) where
  pub wrapper : ConfigWrapper C E
  pub received : ℕ
  pub ended : Bool
  pub dumps : DumpTable
  pub rows : T

same_member_refl : (k : Text × Text) → same_member k k ≡ true
same_member_refl (s, t) = rw (text_eq_refl s, text_eq_refl t)

module _ {ℓ κ μ} {C : Type ℓ} {M : Type κ} {E : Type μ} (ops : SyncOps C M E) where
  send_request-inner :
      (cb : Option ℕ) (w : ConfigWrapper C E)
      → ((send_request ops cb w).inner ≡ w.inner) × ((send_request ops cb w).notified ≡ w.notified)
  unfolding send_request
  send_request-inner cb w = elim (Bool-cases w.receiver) [
    | inl e ↦ (rw e, rw e)
    | inr e ↦ (rw e, rw e)
  ]

  request_push-inner :
      (wanted : Bool) (cb : Option ℕ) (w : ConfigWrapper C E)
      → ((request_push ops wanted cb w).inner ≡ w.inner)
        × ((request_push ops wanted cb w).notified ≡ w.notified)
  unfolding request_push
  request_push-inner true (some c) w = send_request-inner (some c) w
  request_push-inner false (some c) w = (refl, refl)
  request_push-inner true none w = send_request-inner none w
  request_push-inner false none w = (refl, refl)

  do_mutate-result {ν} :
      {R : Type ν} (can : Bool) (f : C → R × C) (w : ConfigWrapper C E)
      → (do_mutate ops can f none w).0 ≡ (f w.inner).0
  unfolding do_mutate
  do_mutate-result can f w = refl

  -- A change after which the config needs a dump is notified.
  do_mutate-dirty {ν} :
      {R : Type ν} (can : Bool) (f : C → R × C) (w : ConfigWrapper C E)
      → ops.needs_dump ((f w.inner).1) ≡ true
      → ((do_mutate ops can f none w).1.inner ≡ (f w.inner).1)
        × ((do_mutate ops can f none w).1.notified ≡ w.notified + 1)
  unfolding do_mutate notify
  do_mutate-dirty can f w h =
      let c = (f w.inner).1 in
      let (same, told) =
        request_push-inner (ops.needs_push c && can) none
          (notify ops (ops.needs_dump c) (record w { inner = c })) in
      (ground (arith, same), ground (arith, told))

  push_turn-notified :
      (w : ConfigWrapper C E) (seq : ℕ) (pushed : C)
      → ops.needs_push w.inner ≡ true
      → ops.push w.inner ≡ (ok (some seq), pushed)
      → ops.needs_dump pushed ≡ true
      → ops.needs_dump (ops.confirm_pushed seq pushed) ≡ true
      → (push_turn ops w).notified ≡ w.notified + 2
  unfolding push_turn confirm
  push_turn-notified w seq pushed p q s t =
      let drained = record w { push_requests = [] } in
      let out : push_if_needed ops w.inner ≡ (ok (some seq), pushed) = ground (arith, p, q) in
      let first = do_mutate-dirty true (push_if_needed ops) drained (rw out s) in
      let after = (mutate ops (push_if_needed ops) drained).1 in
      let second =
        do_mutate-dirty {R = Unit {0}} false (λ c. (tt, ops.confirm_pushed seq c)) after
          (rw (first.0) (rw out t)) in
      let result : (mutate ops (push_if_needed ops) drained).0 ≡ ok (some seq) =
        do_mutate-result true (push_if_needed ops) drained
        ∙ ap (λ (x : Result E (Option ℕ) × C). x.0) out in
      ground (arith, result, first.1, second.1)

module _ {ℓ κ μ ν} {C : Type ℓ} {M : Type κ} {E : Type μ} {T : Type ν} (ops : SyncOps C M E)
    (config : ConfigOps C) (save_as_rows : C → Option Text → T → SavedRows T)
    (id : Option Text) where
  unfoldable pub save_turn : ℕ → Dumping C E T → Dumping C E T
  unfolding do_mutate save_config_dump_and_rows
  save_turn now d =
      let (r, w) =
        mutate ops
          (λ c.
            let saved = save_config_dump_and_rows config save_as_rows id now c d.dumps d.rows in
            (saved, saved.config))
          d.wrapper in
      record {
        wrapper = w;
        received = suc d.received;
        ended = elim r.result [ ok _ ↦ false | err _ ↦ true ];
        dumps = r.dumps;
        rows = r.rows;
      }

  -- The task is polled.
  unfoldable pub dump_turn : ℕ → Dumping C E T → Dumping C E T
  unfolding save_turn
  dump_turn now d =
      let saved = save_turn now d in
      if d.ended || d.wrapper.notified - d.received == 0
      then d
      else if ltb 1 (d.wrapper.notified - d.received)
      then record d { ended = true }
      else saved

  dump_turn-lagging :
      (now : ℕ) (d : Dumping C E T)
      → d.ended ≡ false
      → d.received + 2 ≤ d.wrapper.notified
      → dump_turn now d ≡ record d { ended = true }
  unfolding dump_turn
  dump_turn-lagging now d e n = ground arith

  dump_turn-ended : (now : ℕ) (d : Dumping C E T) → d.ended ≡ true → dump_turn now d ≡ d
  unfolding dump_turn
  dump_turn-ended now d e = ground arith

  dump_turn-due :
      (now : ℕ) (d : Dumping C E T)
      → d.ended ≡ false
      → d.wrapper.notified ≡ d.received + 1
      → dump_turn now d ≡ save_turn now d
  unfolding dump_turn
  dump_turn-due now d e n = ground arith

  -- A task that is one notification behind saves the dump of a config that needs it, as it is then;
  -- a dump to nothing cannot be read back.
  pub dump_turn-saves :
      (now : ℕ) (d : Dumping C E T)
      → d.ended ≡ false
      → d.wrapper.notified ≡ d.received + 1
      → config.needs_dump d.wrapper.inner ≡ true
      → get_config_dump config.config_type_name id (dump_turn now d).dumps
        ≡ dump_of (some (record { dump = (config.dump d.wrapper.inner).0; updated_at = now }))
  unfolding save_turn do_mutate
  dump_turn-saves now d e n h = rw (dump_turn-due now d e n) (
      get_config_dump-save config save_as_rows id now d.wrapper.inner d.dumps d.rows
        config.config_type_name id h
      ∙ own)
    where
      own :
          (if same_member
              (config.config_type_name, id_text id)
              (config.config_type_name, id_text id)
            then dump_of
                (some (record { dump = (config.dump d.wrapper.inner).0; updated_at = now }))
            else get_config_dump config.config_type_name id d.dumps)
          ≡ dump_of (some (record { dump = (config.dump d.wrapper.inner).0; updated_at = now }))
      own = rw (same_member_refl (config.config_type_name, id_text id)) refl

  -- A push that succeeds notifies twice where the config needs a dump after it and after its
  -- confirmation. A task that was up to date then ends without saving anything, and saves nothing
  -- ever after, whatever becomes of the config.
  pub push_turn-ends_dumping :
      (now : ℕ) (d : Dumping C E T) (seq : ℕ) (pushed : C)
      → d.ended ≡ false
      → d.wrapper.notified ≡ d.received
      → ops.needs_push d.wrapper.inner ≡ true
      → ops.push d.wrapper.inner ≡ (ok (some seq), pushed)
      → ops.needs_dump pushed ≡ true
      → ops.needs_dump (ops.confirm_pushed seq pushed) ≡ true
      → let after = dump_turn now (record d { wrapper = push_turn ops d.wrapper }) in
        (after.dumps ≡ d.dumps)
        × ((later : ℕ) (w : ConfigWrapper C E)
            → (dump_turn later (record after { wrapper = w })).dumps ≡ d.dumps)
  push_turn-ends_dumping now d seq pushed e n p q s t =
      let pushed_twice = push_turn-notified ops d.wrapper seq pushed p q s t in
      let lagging =
        dump_turn-lagging now (record d { wrapper = push_turn ops d.wrapper }) e
          (omega (arith, pushed_twice, n)) in
      (
        ap (λ (x : Dumping C E T). x.dumps) lagging,
        λ later w.
            ap (λ (x : Dumping C E T). x.dumps)
              (dump_turn-ended later
                (record (dump_turn now (record d { wrapper = push_turn ops d.wrapper })) {
                  wrapper = w;
                })
                (ap (λ (x : Dumping C E T). x.ended) lagging))
            ∙ ap (λ (x : Dumping C E T). x.dumps) lagging,
      )
