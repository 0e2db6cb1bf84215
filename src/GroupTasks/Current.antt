-- ===== src/GroupTasks/Current.antt =====
-- There is a task for just the groups that the config had when it was last read.
use session_cli.Base.{
  ◌≡◌, refl, ◌∙◌, ◌↔◌, Bool, true, false, ◌&&◌, List, [], ◌∷◌, some, arith, if◌then◌else◌,
}
use session_cli.Base.Assoc.{lookup, replace, lookup-replace}
use session_cli.ConfigTables.{keep_rows}
use session_cli.ConfigTables.Rows.{lookup-keep_rows}
use session_cli.GroupTasks.{
  Handle, fresh, contains_key, keys_in, new_group_ids, spawn_all, update_handles,
}

module _ {ℓ κ} {I : Type ℓ} {V : Type κ} (same : I → I → Bool)
    (same_iff : (a b : I) → (same a b ≡ true) ↔ (a ≡ b)) where
  keys_in-contains_key {μ} :
      {W : Type μ} (xs : List (I × W)) (ys : List (I × V)) (id : I)
      → keys_in same xs ys ≡ true
      → contains_key same id xs ≡ true
      → contains_key same id ys ≡ true
  unfolding keys_in contains_key lookup
  keys_in-contains_key [] ys id h c = ground (arith, c)
  keys_in-contains_key ((j, w) ∷ xs) ys id h c =
      ground (arith, h, c, same_iff j id, keys_in-contains_key xs ys id)

  pub same_keys :
      (xs ys : List (I × V)) (id : I)
      → (keys_in same xs ys && keys_in same ys xs) ≡ true
      → contains_key same id xs ≡ contains_key same id ys
  same_keys xs ys id h =
      ground (arith, h, keys_in-contains_key xs ys id, keys_in-contains_key ys xs id)

module _ {ℓ κ μ} {I : Type ℓ} {G : Type κ} {C : Type μ} (same : I → I → Bool)
    (same_iff : (a b : I) → (same a b ≡ true) ↔ (a ≡ b)) where
  -- Spawning keeps what has a task, where the groups have none; and gives one to each of them.
  lookup-spawn_all :
      (groups : List (I × G)) (handles : List (I × Handle G C)) (id : I)
      → contains_key same id groups ≡ false
      → lookup same id (spawn_all same groups handles) ≡ lookup same id handles
  unfolding spawn_all contains_key lookup
  lookup-spawn_all [] handles id h = refl
  lookup-spawn_all ((j, g) ∷ groups) handles id h = ground (
    arith,
    h,
    lookup-spawn_all groups (replace same j (fresh g) handles) id,
    lookup-replace same same_iff j id (fresh g) handles,
  )

  contains_key-spawn_all :
      (groups : List (I × G)) (handles : List (I × Handle G C)) (id : I)
      → contains_key same id (spawn_all same groups handles)
        ≡ (if contains_key same id groups then true else contains_key same id handles)
  unfolding spawn_all contains_key lookup
  contains_key-spawn_all [] handles id = refl
  contains_key-spawn_all ((j, g) ∷ groups) handles id = ground (
    arith,
    contains_key-spawn_all groups (replace same j (fresh g) handles) id,
    lookup-replace same same_iff j id (fresh g) handles,
  )

  contains_key-new_group_ids :
      (groups : List (I × G)) (handles : List (I × Handle G C)) (id : I)
      → contains_key same id (new_group_ids same groups handles)
        ≡ (if contains_key same id handles then false else contains_key same id groups)
  unfolding new_group_ids contains_key lookup
  contains_key-new_group_ids [] handles id = ground arith
  contains_key-new_group_ids ((j, g) ∷ groups) handles id =
      ground (arith, same_iff j id, contains_key-new_group_ids groups handles id)

  contains_key-retained :
      (gs : List (I × G)) (hs : List (I × Handle G C)) (k : I)
      → contains_key same k (keep_rows (λ i. contains_key same i gs) hs)
        ≡ (if contains_key same k gs then contains_key same k hs else false)
  unfolding contains_key
  contains_key-retained gs hs k =
      ground (arith, lookup-keep_rows same same_iff (λ i. contains_key same i gs) k hs)

  -- The tasks after an update are those of the groups, and one that was there is kept as it is.
  pub contains_key-update_handles :
      (groups : List (I × G)) (handles : List (I × Handle G C)) (id : I)
      → contains_key same id (update_handles same groups handles) ≡ contains_key same id groups
  unfolding update_handles
  contains_key-update_handles groups handles id =
      let retained = keep_rows (λ k. contains_key same k groups) handles in
      ground (
        arith,
        contains_key-spawn_all (new_group_ids same groups retained) retained id,
        contains_key-new_group_ids groups retained id,
        contains_key-retained groups handles id,
      )

  pub lookup-update_handles :
      (groups : List (I × G)) (handles : List (I × Handle G C)) (id : I) (h : Handle G C)
      → lookup same id handles ≡ some h
      → contains_key same id groups ≡ true
      → lookup same id (update_handles same groups handles) ≡ some h
  unfolding update_handles
  lookup-update_handles groups handles id h e c =
      let retained = keep_rows (λ k. contains_key same k groups) handles in
      let kept : lookup same id retained ≡ some h =
        lookup-keep_rows same same_iff (λ k. contains_key same k groups) id handles ∙ rw (c, e) in
      lookup-spawn_all (new_group_ids same groups retained) retained id
        (contains_key-new_group_ids groups retained id ∙ rw (contains_key, kept) refl)
      ∙ kept
