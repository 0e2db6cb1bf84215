-- ===== src/GroupTasks.antt =====
-- libsession-ui-core/src/worker/sync_generic_groups.rs: one task for each group of the config, which
-- is started when the group appears and stopped when it is gone, and the commands passed to it.
-- A hash map is an association list, whose order is that of the iteration. A task is the group it was
-- started with, the commands sent to it, and whether it ended by itself. The broadcast of changes may
-- skip some, and each that arrives reads the config as it is: an event has the groups that it reads.
pub mod Current
pub mod Runs
pub mod Tasks
mod Tests
use session_cli.Base.{
  ℕ, Bool, true, false, not, ◌&&◌, List, [], ◌∷◌, ◌++◌, Option, none, some, Result, ok, err,
  if◌then◌else◌, ◌≡◌, ◌↔◌,
}
use session_cli.Base.Assoc.{lookup, replace}
use session_cli.ConfigTables.{keep_rows}

-- `Handle`, with what becomes of its task.
pub record Handle {ℓ κ} (G : Type ℓ) (C : Type κ) : Type (ℓ ⊔ κ) where
  pub group : G
  pub commands : List C
  pub ended : Bool

abbrev pub fresh {ℓ κ} : {G : Type ℓ} {C : Type κ} → G → Handle G C
fresh g = record { group = g; commands = []; ended = false }

abbrev pub is_some {ℓ} : {A : Type ℓ} → Option A → Bool
is_some (some _) = true
is_some none = false

module _ {ℓ κ} {I : Type ℓ} {V : Type κ} (same : I → I → Bool) where
  unfoldable pub contains_key : I → List (I × V) → Bool
  contains_key id map = is_some (lookup same id map)

  -- `filter_map(f).collect::<HashMap>()`
  unfoldable pub collect {ν} :
      {A : Type ν} → (A → Option (I × V)) → List A → List (I × V) → List (I × V)
  collect f [] map = map
  collect f (a ∷ items) map = elim (f a) [
    | none ↦ collect f items map
    | some (id, v) ↦ collect f items (replace same id v map)
  ]

  -- Every key of the first map is one of the second.
  unfoldable pub keys_in {μ} : {W : Type μ} → List (I × W) → List (I × V) → Bool
  unfolding contains_key
  keys_in [] map = true
  keys_in ((id, _) ∷ rest) map = contains_key id map && keys_in rest map

module _ {ℓ κ} {I : Type ℓ} {G : Type κ} (same : I → I → Bool) where
  -- `scan`: the groups are passed on where their ids are not those of the last ones.
  unfoldable pub scan_groups :
      Option (List (I × G)) → List (I × G) → Option (List (I × G)) × Option (List (I × G))
  unfolding keys_in
  scan_groups none curr = (some curr, some curr)
  scan_groups (some last) curr =
      if keys_in same last curr && keys_in same curr last
      then (some last, none)
      else (some curr, some curr)

  module _ {μ} {C : Type μ} where
    -- The groups that have no task.
    unfoldable pub new_group_ids : List (I × G) → List (I × Handle G C) → List (I × G)
    unfolding contains_key
    new_group_ids [] handles = []
    new_group_ids ((id, g) ∷ groups) handles =
        if contains_key same id handles
        then new_group_ids groups handles
        else (id, g) ∷ new_group_ids groups handles

    -- A task is spawned for each.
    unfoldable pub spawn_all : List (I × G) → List (I × Handle G C) → List (I × Handle G C)
    spawn_all [] handles = handles
    spawn_all ((id, g) ∷ groups) handles = spawn_all groups (replace same id (fresh g) handles)

    unfoldable pub update_handles : List (I × G) → List (I × Handle G C) → List (I × Handle G C)
    unfolding new_group_ids spawn_all
    update_handles groups handles =
        let retained = keep_rows (λ id. contains_key same id groups) handles in
        spawn_all (new_group_ids groups retained) retained

    -- A command goes to the task of its group, and is lost where there is none, or where it ended.
    -- The task's channel takes one command: the send waits while it is full, and the loop with it. The
    -- commands of a handle are all that were sent; the events are those that the loop gets through.
    unfoldable pub send_command : I → C → List (I × Handle G C) → List (I × Handle G C)
    send_command id command handles = elim (lookup same id handles) [
      | none ↦ handles
      | some h ↦
          if h.ended
          then handles
          else replace same id (record h { commands = h.commands ++ command ∷ [] }) handles
    ]

    -- A task ends by itself, and its handle stays.
    unfoldable pub end_task : I → List (I × Handle G C) → List (I × Handle G C)
    end_task id handles = elim (lookup same id handles) [
      | none ↦ handles
      | some h ↦ replace same id (record h { ended = true }) handles
    ]

pub data Event {ℓ κ μ} (I : Type ℓ) (A : Type κ) (C : Type μ) : Type (ℓ ⊔ κ ⊔ μ) where
  changed : List A → Event I A C
  commanded : I → C → Event I A C
  finished : I → Event I A C

pub record Groups {ℓ κ μ} (I : Type ℓ) (G : Type κ) (C : Type μ) : Type (ℓ ⊔ κ ⊔ μ) where
  pub last_groups : Option (List (I × G))
  pub handles : List (I × Handle G C)

-- What the scan keeps, and what it passes on.
unfoldable pub apply_groups {ℓ κ μ} :
    {I : Type ℓ} {G : Type κ} {C : Type μ}
    → (I → I → Bool)
    → Option (List (I × G)) × Option (List (I × G))
    → Groups I G C
    → Groups I G C
unfolding update_handles
apply_groups same (last, none) s = record s { last_groups = last }
apply_groups same (last, some groups) s = record {
  last_groups = last;
  handles = update_handles same groups s.handles;
}

module _ {ℓ κ μ ν} {I : Type ℓ} {G : Type κ} {C : Type μ} {A : Type ν} (same : I → I → Bool)
    (filter_map_groups : A → Option (I × G)) where
  unfoldable pub handle_event : Event I A C → Groups I G C → Groups I G C
  unfolding collect scan_groups apply_groups send_command end_task
  handle_event (changed items) s =
      apply_groups same (scan_groups same s.last_groups (collect same filter_map_groups items [])) s
  handle_event (commanded id command) s = record s {
    handles = send_command same id command s.handles;
  }
  handle_event (finished id) s = record s { handles = end_task same id s.handles }

  -- The loop, until a stream ends, with which it fails; the config is read once at the start.
  unfoldable pub sync_generic_groups : List (Event I A C) → Groups I G C → Groups I G C
  unfolding handle_event
  sync_generic_groups [] s = s
  sync_generic_groups (e ∷ es) s = sync_generic_groups es (handle_event e s)

  abbrev pub started : List A → Groups I G C
  started items = handle_event (changed items) (record { last_groups = none; handles = [] })
