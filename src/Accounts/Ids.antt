-- ===== src/Accounts/Ids.antt =====
-- No id is twice in the map.
use session_cli.Base.{
  ℕ, ◌≡◌, refl, sym, ap, ◌∙◌, ◌↔◌, Bool, true, false, ◌||◌, List, [], ◌∷◌, Option, none, some,
  Result, arith, inl, inr, Option-cases, Result-cases, Bool-cases,
}
use session_cli.Base.Assoc.{lookup, replace}
use session_cli.Base.Text.{Text}
use session_cli.Accounts.{
  ProtoAccount, AccountInfo, AccountMap, GlobalState, shift_remove, new, add_account_instance,
  get_or_create_account_router, delete_account, sync_turn, Use, added, asked, deleted, synced,
}

module _ {ℓ} {I : Type ℓ} (same : I → I → Bool)
    (same_iff : (a b : I) → (same a b ≡ true) ↔ (a ≡ b)) where
  abbrev has_key : I → AccountMap I → Bool
  has_key id [] = false
  has_key id ((j, _) ∷ map) = same j id || has_key id map

  abbrev pub IsUnique : AccountMap I → Type 0
  IsUnique [] = Unit
  IsUnique ((id, _) ∷ map) = (has_key id map ≡ false) × IsUnique map

  has_key-replace :
      (id j : I) (info : AccountInfo) (map : AccountMap I)
      → has_key j (replace same id info map) ≡ (same id j || has_key j map)
  unfolding replace
  has_key-replace id j info [] = refl
  has_key-replace id j info ((k, _) ∷ map) =
      ground (arith, same_iff k id, same_iff k j, same_iff id j, has_key-replace id j info map)

  replace-IsUnique :
      (id : I) (info : AccountInfo) (map : AccountMap I)
      → IsUnique map
      → IsUnique (replace same id info map)
  unfolding replace
  replace-IsUnique id info [] h = (refl, tt)
  replace-IsUnique id info ((k, w) ∷ map) (f, h) = elim (Bool-cases (same k id)) [
    | inl e ↦ rw e (ap (λ j. has_key j map) (sym ((same_iff k id).0 e)) ∙ f, h)
    | inr e ↦ rw e (
      has_key-replace id k info map ∙ ground (arith, f, e, same_iff k id, same_iff id k),
      replace-IsUnique id info map h,
    )
  ]

  has_key-shift_remove :
      (id j : I) (map : AccountMap I)
      → has_key j map ≡ false
      → has_key j (shift_remove same id map) ≡ false
  unfolding shift_remove
  has_key-shift_remove id j [] h = refl
  has_key-shift_remove id j ((k, _) ∷ map) h = ground (arith, h, has_key-shift_remove id j map)

  shift_remove-IsUnique :
      (id : I) (map : AccountMap I) → IsUnique map → IsUnique (shift_remove same id map)
  unfolding shift_remove
  shift_remove-IsUnique id [] h = tt
  shift_remove-IsUnique id ((k, w) ∷ map) (f, h) = elim (Bool-cases (same k id)) [
    | inl e ↦ rw e h
    | inr e ↦ rw e (has_key-shift_remove id k map f, shift_remove-IsUnique id map h)
  ]

  new-IsUnique :
      (accounts : List (Option I × ProtoAccount)) (map : AccountMap I)
      → IsUnique map
      → IsUnique (new same accounts map)
  unfolding new
  new-IsUnique [] map h = h
  new-IsUnique ((none, account) ∷ accounts) map h = new-IsUnique accounts map h
  new-IsUnique ((some id, account) ∷ accounts) map h =
      new-IsUnique accounts _
        (replace-IsUnique id (record { account = account; account_instance = none }) map h)

  module _ (create_router : ℕ → ℕ) (to_string : I → Text) where
    -- Any uses of a state.
    pub data Uses {κ} (E : Type κ) (s : GlobalState I) : GlobalState I → Type (ℓ ⊔ κ) where
      here : Uses E s s
      next :
          {t v : GlobalState I} → Uses E s t → Use same create_router to_string E t v → Uses E s v

    asked-IsUnique {κ} :
        {E : Type κ} (id : I) (create : Result E ℕ) (s : GlobalState I)
        → IsUnique s.state
        → IsUnique (get_or_create_account_router same create_router to_string id create s).1.state
    unfolding get_or_create_account_router
    asked-IsUnique id create s h = elim (Option-cases (lookup same id s.state)) [
      | inl e ↦ rw (get_or_create_account_router, e) h
      | inr (info, e) ↦ elim (Option-cases info.account_instance) [
        | inr (k, n) ↦ rw (get_or_create_account_router, e, n) h
        | inl n ↦ elim (Result-cases create) [
          | inr (x, c) ↦ rw (get_or_create_account_router, e, n, c) h
          | inl (a, c) ↦
              rw (get_or_create_account_router, e, n, c) (replace-IsUnique id _ s.state h)
        ]
      ]
    ]

    use-IsUnique {κ} :
        {E : Type κ} {s t : GlobalState I}
        → Use same create_router to_string E s t
        → IsUnique s.state
        → IsUnique t.state
    unfolding add_account_instance delete_account sync_turn
    use-IsUnique {s} (added id a) h = replace-IsUnique id _ s.state h
    use-IsUnique {s} (asked id create) h = asked-IsUnique id create s h
    use-IsUnique {s} (deleted id) h = elim (Option-cases (lookup same id s.state)) [
      | inl e ↦ rw (delete_account, e) h
      | inr (info, e) ↦ rw (delete_account, e) (shift_remove-IsUnique id s.state h)
    ]
    use-IsUnique {s} (synced id a before after name file e) h =
        elim (Option-cases (lookup same id s.state)) [
          | inl l ↦ rw (sync_turn, l) h
          | inr (info, l) ↦ rw (sync_turn, l) (replace-IsUnique id _ s.state h)
        ]

    uses-IsUnique {κ} :
        {E : Type κ} {s t : GlobalState I} → Uses E s t → IsUnique s.state → IsUnique t.state
    uses-IsUnique here h = h
    uses-IsUnique (next us u) h = use-IsUnique u (uses-IsUnique us h)

    -- From the accounts of the database, whatever their texts, and after any additions, calls, deletions
    -- and turns of tasks, no id is twice in the map.
    pub used-IsUnique {κ} :
        {E : Type κ} (accounts : List (Option I × ProtoAccount)) {t : GlobalState I}
        → Uses E (record { state = new same accounts []; tasks = []; sent = 0 }) t
        → IsUnique t.state
    used-IsUnique accounts us = uses-IsUnique us (new-IsUnique accounts [] tt)
