-- ===== src/Accounts/Routers.antt =====
-- The instance of an account is made once.
use session_cli.Base.{
  ℕ, ◌≡◌, refl, sym, ap, ◌∙◌, ◌↔◌, Bool, true, false, not, List, [], ◌∷◌, Option, none, some,
  Result, ok, arith, inl, inr, Bool-cases, Option-cases, Result-cases,
}
use session_cli.Base.Assoc.{lookup, replace, lookup-replace}
use session_cli.Base.Text.{Text}
use session_cli.Accounts.{
  AccountInstance, AccountInfo, AccountMap, GlobalState, shift_remove, add_account_instance,
  get_or_create_account_router, delete_account, sync_turn, Use, added, asked, deleted, synced,
}

abbrev pub instance_in : Option AccountInfo → Option AccountInstance
instance_in none = none
instance_in (some info) = info.account_instance

module _ {ℓ} {I : Type ℓ} (same : I → I → Bool)
    (same_iff : (a b : I) → (same a b ≡ true) ↔ (a ≡ b)) where
  pub insert_other :
      (j id : I) (info : AccountInfo) (map : AccountMap I)
      → same j id ≡ false
      → lookup same id (replace same j info map) ≡ lookup same id map
  insert_other j id info map d = ground (arith, d, lookup-replace same same_iff j id info map)

  pub insert_same :
      (j id : I) (info : AccountInfo) (map : AccountMap I)
      → same j id ≡ true
      → lookup same id (replace same j info map) ≡ some info
  insert_same j id info map d = ground (arith, d, lookup-replace same same_iff j id info map)

  -- Removing a key leaves the others.
  pub lookup-shift_remove :
      (id j : I) (map : AccountMap I)
      → same id j ≡ false
      → lookup same j (shift_remove same id map) ≡ lookup same j map
  unfolding shift_remove lookup
  lookup-shift_remove id j [] d = refl
  lookup-shift_remove id j ((k, info) ∷ map) d =
      ground (arith, d, same_iff k id, same_iff k j, same_iff id j, lookup-shift_remove id j map d)

  module _ (create_router : ℕ → ℕ) (to_string : I → Text) where
    abbrev pub instance_of : I → GlobalState I → Option AccountInstance
    instance_of id s = instance_in (lookup same id s.state)

    -- The use neither adds nor deletes the account.
    abbrev pub avoids {κ} :
        {E : Type κ} {s t : GlobalState I} → I → Use same create_router to_string E s t → Bool
    avoids id (added j _) = not (same j id)
    avoids id (asked _ _) = true
    avoids id (deleted j) = not (same j id)
    avoids id (synced _ _ _ _ _ _ _) = true

    -- Uses of a state that neither add nor delete the account.
    pub data Uses {κ} (E : Type κ) (id : I) (s : GlobalState I) : GlobalState I → Type (ℓ ⊔ κ) where
      here : Uses E id s s
      next :
          {t v : GlobalState I}
          → Uses E id s t
          → (u : Use same create_router to_string E t v) → avoids id u ≡ true
          → Uses E id s v

    instance-added :
        (id j : I) (a : ℕ) (s : GlobalState I) (i : AccountInstance)
        → same j id ≡ false
        → instance_of id s ≡ some i
        → instance_of id (add_account_instance same create_router to_string j a s) ≡ some i
    unfolding add_account_instance
    instance-added id j a s i d h = ap instance_in (insert_other j id _ s.state d) ∙ h

    instance-asked {κ} :
        {E : Type κ} (id j : I) (create : Result E ℕ) (s : GlobalState I) (i : AccountInstance)
        → instance_of id s ≡ some i
        → instance_of id (get_or_create_account_router same create_router to_string j create s).1
          ≡ some i
    unfolding get_or_create_account_router
    instance-asked id j create s i h = elim (Option-cases (lookup same j s.state)) [
      | inl e ↦ ground (arith, e, h)
      | inr (info, e) ↦ elim (Option-cases info.account_instance) [
        | inr (k, n) ↦ ground (arith, e, n, h)
        | inl n ↦ elim (Result-cases create) [
          | inr (x, c) ↦ ground (arith, e, n, c, h)
          | inl (a, c) ↦ elim (Bool-cases (same j id)) [
            | inl d ↦
                let none_there : instance_of id s ≡ none =
                  ap (λ k. instance_of k s) (sym ((same_iff j id).0 d)) ∙ ap instance_in e ∙ n in
                ground (arith, none_there, h)
            | inr d ↦
                rw (get_or_create_account_router, e, n, c)
                  (ap instance_in (insert_other j id _ s.state d) ∙ h)
          ]
        ]
      ]
    ]

    instance-deleted :
        (id j : I) (s : GlobalState I) (i : AccountInstance)
        → same j id ≡ false
        → instance_of id s ≡ some i
        → instance_of id (delete_account same j s) ≡ some i
    unfolding delete_account
    instance-deleted id j s i d h = elim (Option-cases (lookup same j s.state)) [
      | inl e ↦ rw (delete_account, e) h
      | inr (info, e) ↦
          rw (delete_account, e) (ap instance_in (lookup-shift_remove j id s.state d) ∙ h)
    ]

    instance-synced :
        (id j : I) (name : Text) (file : Option (List ℕ)) (s : GlobalState I) (i : AccountInstance)
        → instance_of id s ≡ some i
        → instance_of id (sync_turn same j name file s) ≡ some i
    unfolding sync_turn
    instance-synced id j name file s i h = elim (Option-cases (lookup same j s.state)) [
      | inl e ↦ rw (sync_turn, e) h
      | inr (info, e) ↦ elim (Bool-cases (same j id)) [
        | inr d ↦ rw (sync_turn, e) (ap instance_in (insert_other j id _ s.state d) ∙ h)
        | inl d ↦
            let there : instance_of id s ≡ info.account_instance =
              ap (λ k. instance_of k s) (sym ((same_iff j id).0 d)) ∙ ap instance_in e in
            rw (sync_turn, e) (ap instance_in (insert_same j id _ s.state d) ∙ sym there ∙ h)
      ]
    ]

    use-instance {κ} :
        {E : Type κ} (id : I) {s t : GlobalState I} (i : AccountInstance)
        (u : Use same create_router to_string E s t)
        → avoids id u ≡ true
        → instance_of id s ≡ some i
        → instance_of id t ≡ some i
    use-instance id {s} i (added j a) q h = instance-added id j a s i (ground (arith, q)) h
    use-instance id {s} i (asked j create) q h = instance-asked id j create s i h
    use-instance id {s} i (deleted j) q h = instance-deleted id j s i (ground (arith, q)) h
    use-instance id {s} i (synced j a before after name file e) q h =
        instance-synced id j name file s i h

    uses-instance {κ} :
        {E : Type κ} (id : I) {s t : GlobalState I} (i : AccountInstance)
        → Uses E id s t
        → instance_of id s ≡ some i
        → instance_of id t ≡ some i
    uses-instance id i here h = h
    uses-instance id i (next us u q) h = use-instance id i u q (uses-instance id i us h)

    asked-instance {κ} :
        {E : Type κ} (id : I) (create : Result E ℕ) (s : GlobalState I) (r : ℕ)
        → (get_or_create_account_router same create_router to_string id create s).0 ≡ ok (some r)
        → (i : AccountInstance) × ((instance_of id
                (get_or_create_account_router same create_router to_string id create s).1
              ≡ some i)
            × (i.router ≡ r))
    unfolding get_or_create_account_router
    asked-instance id create s r e = elim (Option-cases (lookup same id s.state)) [
      | inl l ↦ ground (arith, l, e)
      | inr (info, l) ↦ elim (Option-cases info.account_instance) [
        | inr (k, n) ↦ (
          k,
          (rw (get_or_create_account_router, l, n) (ap instance_in l ∙ n), ground (arith, l, n, e)),
        )
        | inl n ↦ elim (Result-cases create) [
          | inr (x, c) ↦ ground (arith, l, n, c, e)
          | inl (a, c) ↦ (
            record { account_state = a; router = create_router a },
            (
              rw (get_or_create_account_router, l, n, c)
                  (ap instance_in (insert_same id id _ s.state ((same_iff id id).1 refl))),
              ground (arith, l, n, c, e),
            ),
          )
        ]
      ]
    ]

    -- Once a router was answered for an account, whatever is done that neither deletes the account nor
    -- adds it anew, the next call for it answers the same router, creates nothing and changes nothing.
    pub router_once {κ} :
        {E : Type κ} (id : I) (create again : Result E ℕ) (s t : GlobalState I) (r : ℕ)
        → (get_or_create_account_router same create_router to_string id create s).0 ≡ ok (some r)
        → Uses E id (get_or_create_account_router same create_router to_string id create s).1 t
        → get_or_create_account_router same create_router to_string id again t ≡ (ok (some r), t)
    unfolding get_or_create_account_router
    router_once id create again s t r e us =
        let made = asked-instance id create s r e in
        let kept = uses-instance id made.0 us made.1.0 in
        elim (Option-cases (lookup same id t.state)) [
          | inl l ↦ ground (arith, l, kept)
          | inr (info, l) ↦
              let n : info.account_instance ≡ some made.0 = ap instance_in (sym l) ∙ kept in
              rw (get_or_create_account_router, l, n) (ap (λ k. (ok (some k), t)) made.1.1)
        ]
