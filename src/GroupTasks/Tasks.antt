-- ===== src/GroupTasks/Tasks.antt =====
-- What becomes of the task of a group that stays in the config.
use session_cli.Base.{
  ◌≡◌, ap, ◌∙◌, ◌↔◌, Bool, true, not, ◌&&◌, List, [], ◌∷◌, ◌++◌, Option, some, arith, Bool-cases,
  Option-cases, inl, inr, if◌then◌else◌,
}
use session_cli.Base.Assoc.{lookup, lookup-replace}
use session_cli.GroupTasks.{
  Handle, contains_key, keys_in, scan_groups, send_command, end_task, Event, changed, commanded,
  finished, Groups, handle_event, apply_groups, sync_generic_groups,
}
use session_cli.GroupTasks.Current.{lookup-update_handles}
use session_cli.GroupTasks.Runs.{groups_of}

module _ {ℓ κ μ ν} {I : Type ℓ} {G : Type κ} {C : Type μ} {A : Type ν} (same : I → I → Bool)
    (same_iff : (a b : I) → (same a b ≡ true) ↔ (a ≡ b)) (f : A → Option (I × G)) (id : I) where
  -- What one task does by itself: it takes the commands for it until it ends, and does nothing then.
  abbrev pub step_task : Event I A C → Handle G C → Handle G C
  step_task (changed _) h = h
  step_task (commanded k c) h =
      if same k id && not h.ended then record h { commands = h.commands ++ c ∷ [] } else h
  step_task (finished k) h = if same k id then record h { ended = true } else h

  abbrev pub follow : List (Event I A C) → Handle G C → Handle G C
  follow [] h = h
  follow (e ∷ es) h = follow es (step_task e h)

  -- The group is in the config whenever it is read.
  abbrev pub stays : List (Event I A C) → Bool
  stays [] = true
  stays (changed items ∷ es) = contains_key same id (groups_of same f items) && stays es
  stays (_ ∷ es) = stays es

  changed_task :
      (curr : List (I × G)) (s : Groups I G C) (h : Handle G C)
      → lookup same id s.handles ≡ some h
      → contains_key same id curr ≡ true
      → lookup same id (apply_groups same (scan_groups same s.last_groups curr) s).handles ≡ some h
  unfolding apply_groups scan_groups
  changed_task curr s h e c = elim (Option-cases s.last_groups) [
    | inl l ↦ ground (arith, l, lookup-update_handles same same_iff curr s.handles id h e c)
    | inr (seen, l) ↦ elim (Bool-cases (keys_in same seen curr && keys_in same curr seen)) [
      | inl k ↦ ground (arith, l, k, e)
      | inr k ↦ ground (arith, l, k, lookup-update_handles same same_iff curr s.handles id h e c)
    ]
  ]

  commanded_task :
      (k : I) (c : C) (handles : List (I × Handle G C)) (h : Handle G C)
      → lookup same id handles ≡ some h
      → lookup same id (send_command same k c handles)
        ≡ some
            (if same k id && not h.ended then record h { commands = h.commands ++ c ∷ [] } else h)
  unfolding send_command
  commanded_task k c handles h e = elim (Bool-cases (same k id)) [
    | inl s ↦
        let o : lookup same k handles ≡ some h =
          ap (λ j. lookup same j handles) ((same_iff k id).0 s) ∙ e in
        elim (Bool-cases h.ended) [
          | inl d ↦ ground (arith, s, o, e, d)
          | inr d ↦ ground (
            arith,
            s,
            o,
            e,
            d,
            lookup-replace same same_iff k id (record h { commands = h.commands ++ c ∷ [] })
                handles,
          )
        ]
    | inr s ↦ elim (Option-cases (lookup same k handles)) [
      | inl o ↦ ground (arith, s, o, e)
      | inr (g, o) ↦ ground (
        arith,
        s,
        o,
        e,
        lookup-replace same same_iff k id (record g { commands = g.commands ++ c ∷ [] }) handles,
      )
    ]
  ]

  finished_task :
      (k : I) (handles : List (I × Handle G C)) (h : Handle G C)
      → lookup same id handles ≡ some h
      → lookup same id (end_task same k handles)
        ≡ some (if same k id then record h { ended = true } else h)
  unfolding end_task
  finished_task k handles h e = elim (Bool-cases (same k id)) [
    | inl s ↦
        let o : lookup same k handles ≡ some h =
          ap (λ j. lookup same j handles) ((same_iff k id).0 s) ∙ e in
        ground (arith, s, o, lookup-replace same same_iff k id (record h { ended = true }) handles)
    | inr s ↦ elim (Option-cases (lookup same k handles)) [
      | inl o ↦ ground (arith, s, o, e)
      | inr (g, o) ↦
          ground
            (arith, s, o, e, lookup-replace same same_iff k id (record g { ended = true }) handles)
    ]
  ]

  -- While a group stays in the config, whatever else becomes of the config and of other groups, its
  -- task is the one that was started for it, with just the commands for the group, each once and in
  -- order, up to the task's end; after that it takes no command, and none is started in its place.
  pub task-follow :
      (es : List (Event I A C)) (s : Groups I G C) (h : Handle G C)
      → lookup same id s.handles ≡ some h
      → stays es ≡ true
      → lookup same id (sync_generic_groups same f es s).handles ≡ some (follow es h)
  unfolding sync_generic_groups handle_event
  task-follow [] s h e c = e
  task-follow (changed items ∷ es) s h e c =
      task-follow es (handle_event same f (changed items) s) h
        (changed_task (groups_of same f items) s h e (ground (arith, c))) (ground (arith, c))
  task-follow (commanded k m ∷ es) s h e c =
      task-follow es (handle_event same f (commanded k m) s) (step_task (commanded k m) h)
        (commanded_task k m s.handles h e) c
  task-follow (finished k ∷ es) s h e c =
      task-follow es (handle_event same f (finished k) s) (step_task (finished k) h)
        (finished_task k s.handles h e) c
