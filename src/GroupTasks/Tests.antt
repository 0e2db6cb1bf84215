-- ===== src/GroupTasks/Tests.antt =====
-- Witnesses for the theorems on the tasks of groups: a group is its number, and groups above nine are
-- of another kind.
use session_cli.Base.{
  ℕ, Bool, ◌≡◌, refl, true, false, List, [], ◌∷◌, Option, none, some, ◌==◌, ==_iff, ltb,
  if◌then◌else◌,
}
use session_cli.Base.Assoc.{lookup, replace}
use session_cli.ConfigTables.{keep_rows}
use session_cli.GroupTasks.{
  contains_key, collect, scan_groups, update_handles, new_group_ids, spawn_all, Event, changed,
  commanded, finished, handle_event, apply_groups, sync_generic_groups, started,
}
use session_cli.GroupTasks.Runs.{tasks-groups}
use session_cli.GroupTasks.Tasks.{task-follow}

abbrev same : ℕ → ℕ → Bool
same a b = a == b

abbrev below_ten : ℕ → Option (ℕ × ℕ)
below_ten n = if ltb n 10 then some (n, n) else none

abbrev events : List (Event ℕ ℕ ℕ)
events = commanded 2 7 ∷ changed (3 ∷ 2 ∷ 12 ∷ []) ∷ finished 2 ∷ commanded 2 8 ∷ []

tasks-groups_example :
    contains_key same 12
      (sync_generic_groups same below_ten events (started same below_ten (2 ∷ []))).handles
    ≡ false
unfolding collect lookup replace contains_key
tasks-groups_example = tasks-groups same ==_iff below_ten events (2 ∷ []) 12

task-follow_example :
    lookup same 2
      (sync_generic_groups same below_ten events (started same below_ten (2 ∷ []))).handles
    ≡ some (record { group = 2; commands = 7 ∷ []; ended = true })
unfolding handle_event scan_groups apply_groups update_handles new_group_ids spawn_all keep_rows
    collect lookup replace contains_key
task-follow_example =
    task-follow same ==_iff below_ten 2 events (started same below_ten (2 ∷ []))
      (record { group = 2; commands = []; ended = false }) refl refl
