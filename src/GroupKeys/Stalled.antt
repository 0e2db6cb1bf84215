-- ===== src/GroupKeys/Stalled.antt =====
-- What becomes of a group whose keys were found.
use session_cli.Base.{
  ℕ, ◌+◌, ◌≤◌, ◌≡◌, ap, sym, ◌∙◌, append_assoc, List, [], ◌∷◌, ◌++◌, Option, none, some, take,
  arith, Option-cases, inl, inr, if◌then◌else◌,
}
use session_cli.ConfigSync.{SyncOps}
use session_cli.Dispatch.{
  same_namespace, MessageNamespace, group_kicked_messages, group_keys_config, GroupCommand,
  side_channel_message_received, handle_one,
}
use session_cli.GroupKeys.{
  GroupTask, GroupStep, poll, pipe, receive_command, pass_on, group_step, group_steps, channel_full,
}

abbrev room {ν} : {A : Type ν} → List A → ℕ
room [] = 1
room (_ ∷ _) = 0

abbrev idle {ν} : {A : Type ν} → Option A → ℕ
idle none = 1
idle (some _) = 0

abbrev pub is_for {ℓ} : {M : Type ℓ} → MessageNamespace → GroupCommand M → ℕ
is_for ns (side_channel_message_received n m) = if same_namespace n ns then 1 else 0

abbrev pub count_for {ℓ} : {M : Type ℓ} → MessageNamespace → List (GroupCommand M) → ℕ
count_for ns [] = 0
count_for ns (c ∷ cs) = is_for ns c + count_for ns cs

-- Whether no command of a namespace is being passed on.
abbrev free_of {ℓ} : {M : Type ℓ} → MessageNamespace → Option (GroupCommand M) → ℕ
free_of ns none = 1
free_of ns (some (side_channel_message_received n m)) = if same_namespace n ns then 0 else 1

module _ {ℓ κ μ} {C : Type ℓ} {M : Type κ} {E : Type μ} where
  abbrev pub is_merge : GroupStep C M E → ℕ
  is_merge (poll ms r) = 1
  is_merge pipe = 1
  is_merge _ = 0

  abbrev pub merges : List (GroupStep C M E) → ℕ
  merges [] = 0
  merges (a ∷ rest) = is_merge a + merges rest

  -- How many times the loops of the keys can still merge, when nobody reads their results.
  abbrev merges_left : GroupTask C M E → ℕ
  merges_left s = room s.poll_results + idle s.poll_sends + (if s.pipe_sends then 0 else 1)

  -- How many commands for the keys, and for being kicked, can still be received.
  abbrev keys_left : GroupTask C M E → ℕ
  keys_left s = room s.channels.keys + free_of group_keys_config s.passes + merges_left s

  abbrev kicked_left : GroupTask C M E → ℕ
  kicked_left s = room s.channels.kicked + free_of group_kicked_messages s.passes

module _ {ℓ κ μ} {C : Type ℓ} {M : Type κ} {E : Type μ} (ops : SyncOps C M E) (len : C → ℕ) where
  merges_left_le : (s : GroupTask C M E) → merges_left s ≤ 3
  merges_left_le s = ground arith

  keys_left_le : (s : GroupTask C M E) → keys_left s ≤ 5
  keys_left_le s = ground arith

  kicked_left_le : (s : GroupTask C M E) → kicked_left s ≤ 2
  kicked_left_le s = ground arith

  group_step-merges :
      (a : GroupStep C M E) (s t : GroupTask C M E) (n : ℕ)
      → s.found ≡ some n
      → group_step ops len a s ≡ some t
      → (t.found ≡ some n) × (merges_left t + is_merge a ≤ merges_left s)
  unfolding group_step
  group_step-merges a s t n f h = ground arith

  group_step-keys :
      (a : GroupStep C M E) (s t : GroupTask C M E) (n : ℕ)
      → s.found ≡ some n
      → group_step ops len a s ≡ some t
      → keys_left t + count_for group_keys_config s.commands
        ≤ keys_left s + count_for group_keys_config t.commands
  unfolding group_step channel_full handle_one
  group_step-keys receive_command s t n f h = ground arith
  group_step-keys pass_on s t n f h = ground arith
  group_step-keys a s t n f h = ground arith

  group_step-kicked :
      (a : GroupStep C M E) (s t : GroupTask C M E)
      → group_step ops len a s ≡ some t
      → kicked_left t + count_for group_kicked_messages s.commands
        ≤ kicked_left s + count_for group_kicked_messages t.commands
  unfolding group_step channel_full handle_one
  group_step-kicked a s t h = ground arith

  -- The commands received are the first ones.
  abbrev taken_in : GroupStep C M E → GroupTask C M E → List (GroupCommand (List M))
  taken_in receive_command s = take 1 s.commands
  taken_in a s = []

  group_step-commands :
      (a : GroupStep C M E) (s t : GroupTask C M E)
      → group_step ops len a s ≡ some t
      → s.commands ≡ taken_in a s ++ t.commands
  unfolding group_step
  group_step-commands a s t h = ground arith

  run :
      (acts : List (GroupStep C M E)) (s t : GroupTask C M E) (n : ℕ)
      → s.found ≡ some n
      → group_steps ops len acts s ≡ some t
      → (merges acts ≤ merges_left s)
        × (keys_left t + count_for group_keys_config s.commands
            ≤ keys_left s + count_for group_keys_config t.commands)
        × (kicked_left t + count_for group_kicked_messages s.commands
            ≤ kicked_left s + count_for group_kicked_messages t.commands)
        × ((taken : List (GroupCommand (List M))) × (s.commands ≡ taken ++ t.commands))
  unfolding group_steps
  run [] s t n f h = (ground arith, ground arith, ground arith, ([], ground arith))
  run (a ∷ rest) s t n f h = elim (Option-cases (group_step ops len a s)) [
    | inl e ↦ ground arith
    | inr (u, e) ↦
        let (g, m) = group_step-merges a s u n f e in
        let (ms, ks, ds, (taken, cs)) = run rest u t n g (ground arith) in
        (
          omega arith,
          omega (arith, group_step-keys a s u n f e),
          omega (arith, group_step-kicked a s u e),
          (
            taken_in a s ++ taken,
            group_step-commands a s u e
                ∙ ap (λ cs. taken_in a s ++ cs) cs
                ∙ sym (append_assoc (taken_in a s) taken t.commands),
          ),
        )
  ]

  count_for-append :
      (ns : MessageNamespace) (xs ys : List (GroupCommand (List M)))
      → count_for ns (xs ++ ys) ≡ count_for ns xs + count_for ns ys
  count_for-append ns [] ys = omega arith
  count_for-append ns (x ∷ xs) ys = omega (arith, count_for-append ns xs ys)

  -- Once the keys of a group were found, the results of the polls for keys are not read any more. So
  -- whatever its tasks do, in any order, at most three more batches are merged into the keys; and of
  -- the commands for the group only first ones are received, among which at most five are for the keys
  -- and at most two for being kicked.
  pub found-stalled :
      (acts : List (GroupStep C M E)) (s t : GroupTask C M E) (n : ℕ)
      → s.found ≡ some n
      → group_steps ops len acts s ≡ some t
      → (merges acts ≤ 3)
        × ((taken : List (GroupCommand (List M))) × (s.commands ≡ taken ++ t.commands)
            × (count_for group_keys_config taken ≤ 5)
            × (count_for group_kicked_messages taken ≤ 2))
  found-stalled acts s t n f h =
      let (m, k, d, (taken, c)) = run acts s t n f h in
      let keys =
        ap (count_for group_keys_config) c ∙ count_for-append group_keys_config taken t.commands in
      let kicked =
        ap (count_for group_kicked_messages) c
        ∙ count_for-append group_kicked_messages taken t.commands in
      (
        omega (arith, m, merges_left_le s),
        (
          taken,
          c,
          omega (arith, k, keys, keys_left_le s),
          omega (arith, d, kicked, kicked_left_le s),
        ),
      )
