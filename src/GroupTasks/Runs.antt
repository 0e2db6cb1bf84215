-- ===== src/GroupTasks/Runs.antt =====
-- The tasks after any events: which there are, and what one has received.
use mathlib.Core.Path.{subst}
use session_cli.Base.{
  ◌≡◌, refl, sym, ap, ◌∙◌, ◌↔◌, Bool, true, false, ◌&&◌, List, [], ◌∷◌, ◌++◌, Option, none, some,
  arith, Bool-cases, Option-cases, inl, inr,
}
use session_cli.Base.Assoc.{lookup, lookup-replace}
use session_cli.GroupTasks.{
  Handle, contains_key, collect, keys_in, scan_groups, update_handles, send_command, end_task,
  Event, changed, commanded, finished, Groups, handle_event, apply_groups, sync_generic_groups,
  started,
}
use session_cli.GroupTasks.Current.{same_keys, contains_key-update_handles}

abbrev pub groups_of {ℓ κ ν} :
    {I : Type ℓ} {G : Type κ} {A : Type ν}
    → (I → I → Bool)
    → (A → Option (I × G))
    → List A
    → List (I × G)
groups_of same f items = collect same f items []

-- What the config had when it was last read.
abbrev pub latest {ℓ μ ν} :
    {I : Type ℓ} {C : Type μ} {A : Type ν} → List (Event I A C) → List A → List A
latest [] items = items
latest (changed new ∷ es) items = latest es new
latest (commanded _ _ ∷ es) items = latest es items
latest (finished _ ∷ es) items = latest es items

module _ {ℓ κ μ ν} {I : Type ℓ} {G : Type κ} {C : Type μ} {A : Type ν} (same : I → I → Bool)
    (same_iff : (a b : I) → (same a b ≡ true) ↔ (a ≡ b)) (f : A → Option (I × G)) where
  record IsCurrent (items : List A) (s : Groups I G C) : Type (ℓ ⊔ κ) where
    seen : List (I × G)
    last_seen : s.last_groups ≡ some seen
    same_ids : (id : I) → contains_key same id seen ≡ contains_key same id (groups_of same f items)
    tasks :
        (id : I) → contains_key same id s.handles ≡ contains_key same id (groups_of same f items)

  contains_key-send_command :
      (id : I) (c : C) (handles : List (I × Handle G C)) (k : I)
      → contains_key same k (send_command same id c handles) ≡ contains_key same k handles
  unfolding contains_key send_command
  contains_key-send_command id c handles k = elim (Option-cases (lookup same id handles)) [
    | inl e ↦ ground (arith, e)
    | inr (h, e) ↦ ground (
      arith,
      e,
      same_iff id k,
      lookup-replace same same_iff id k (record h { commands = h.commands ++ c ∷ [] }) handles,
    )
  ]

  contains_key-end_task :
      (id : I) (handles : List (I × Handle G C)) (k : I)
      → contains_key same k (end_task same id handles) ≡ contains_key same k handles
  unfolding contains_key end_task
  contains_key-end_task id handles k = elim (Option-cases (lookup same id handles)) [
    | inl e ↦ ground (arith, e)
    | inr (h, e) ↦ ground (
      arith,
      e,
      same_iff id k,
      lookup-replace same same_iff id k (record h { ended = true }) handles,
    )
  ]

  unchanged_ids :
      (s : Groups I G C) (new : List A) (seen : List (I × G))
      → s.last_groups ≡ some seen
      → (keys_in same seen (groups_of same f new) && keys_in same (groups_of same f new) seen)
        ≡ true
      → handle_event {C = C} same f (changed new) s ≡ record s { last_groups = some seen }
  unfolding handle_event scan_groups apply_groups
  unchanged_ids s new seen l e =
      let curr = groups_of same f new in
      let q : scan_groups same s.last_groups curr ≡ (some seen, none) = rw (l, scan_groups, e) in
      ap (λ p. apply_groups same p s) q

  changed_ids :
      (s : Groups I G C) (new : List A) (seen : List (I × G))
      → s.last_groups ≡ some seen
      → (keys_in same seen (groups_of same f new) && keys_in same (groups_of same f new) seen)
        ≡ false
      → handle_event {C = C} same f (changed new) s ≡ record {
        last_groups = some (groups_of same f new);
        handles = update_handles same (groups_of same f new) s.handles;
      }
  unfolding handle_event scan_groups apply_groups
  changed_ids s new seen l e =
      let curr = groups_of same f new in
      let q : scan_groups same s.last_groups curr ≡ (some curr, some curr) =
        rw (l, scan_groups, e) in
      ap (λ p. apply_groups same p s) q

  changed-IsCurrent :
      (items new : List A) (s : Groups I G C)
      → IsCurrent items s
      → IsCurrent new (handle_event same f (changed new) s)
  changed-IsCurrent items new s h =
      let curr = groups_of same f new in
      elim (Bool-cases (keys_in same h.seen curr && keys_in same curr h.seen)) [
        | inl e ↦
            let agree = same_keys same same_iff h.seen curr in
            subst (IsCurrent new) (sym (unchanged_ids s new h.seen h.last_seen e)) (record {
              seen = h.seen;
              last_seen = refl;
              same_ids = λ id. agree id e;
              tasks = λ id. h.tasks id ∙ sym (h.same_ids id) ∙ agree id e;
            })
        | inr e ↦ subst (IsCurrent new) (sym (changed_ids s new h.seen h.last_seen e)) (record {
          seen = curr;
          last_seen = refl;
          same_ids = λ id. refl;
          tasks = λ id. contains_key-update_handles same same_iff curr s.handles id;
        })
      ]

  event-IsCurrent :
      (e : Event I A C) (items : List A) (s : Groups I G C)
      → IsCurrent items s
      → IsCurrent (latest (e ∷ []) items) (handle_event same f e s)
  unfolding handle_event
  event-IsCurrent (changed new) items s h = changed-IsCurrent items new s h
  event-IsCurrent (commanded id c) items s h = record {
    seen = h.seen;
    last_seen = h.last_seen;
    same_ids = h.same_ids;
    tasks = λ k. contains_key-send_command id c s.handles k ∙ h.tasks k;
  }
  event-IsCurrent (finished id) items s h = record {
    seen = h.seen;
    last_seen = h.last_seen;
    same_ids = h.same_ids;
    tasks = λ k. contains_key-end_task id s.handles k ∙ h.tasks k;
  }

  run-IsCurrent :
      (es : List (Event I A C)) (items : List A) (s : Groups I G C)
      → IsCurrent items s
      → IsCurrent (latest es items) (sync_generic_groups same f es s)
  unfolding sync_generic_groups
  run-IsCurrent [] items s h = h
  run-IsCurrent (changed new ∷ es) items s h =
      run-IsCurrent es new (handle_event same f (changed new) s) (changed-IsCurrent items new s h)
  run-IsCurrent (commanded id c ∷ es) items s h =
      run-IsCurrent es items (handle_event same f (commanded id c) s)
        (event-IsCurrent (commanded id c) items s h)
  run-IsCurrent (finished id ∷ es) items s h =
      run-IsCurrent es items (handle_event same f (finished id) s)
        (event-IsCurrent (finished id) items s h)

  started-IsCurrent : (items : List A) → IsCurrent items (started {C = C} same f items)
  unfolding handle_event scan_groups apply_groups
  started-IsCurrent items = record {
    seen = groups_of same f items;
    last_seen = refl;
    same_ids = λ id. refl;
    tasks = λ id. contains_key-update_handles same same_iff (groups_of same f items) [] id;
  }

  -- After any changes of the config, commands and endings of tasks, in any order, there is a task
  -- under just those ids that the config had when it was last read.
  pub tasks-groups :
      (es : List (Event I A C)) (items : List A) (id : I)
      → contains_key same id (sync_generic_groups same f es (started same f items)).handles
        ≡ contains_key same id (groups_of same f (latest es items))
  tasks-groups es items id =
      (run-IsCurrent es items (started same f items) (started-IsCurrent items)).tasks id
