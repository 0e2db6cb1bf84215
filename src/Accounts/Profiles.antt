-- ===== src/Accounts/Profiles.antt =====
-- The tasks that copy a profile, when an account is deleted and added again.
use session_cli.Base.{
  ℕ, ◌≡◌, refl, ap, ◌∙◌, ◌↔◌, Bool, true, List, ◌∷◌, Option, some, inl, inr, Option-cases,
}
use session_cli.Base.Assoc.{lookup}
use session_cli.Base.Text.{Text}
use session_cli.Accounts.{AccountInfo, GlobalState, add_account_instance, delete_account, sync_turn}
use session_cli.Accounts.Routers.{insert_same}

module _ {ℓ} {I : Type ℓ} (same : I → I → Bool)
    (same_iff : (a b : I) → (same a b ≡ true) ↔ (a ≡ b)) where
  tasks-delete : (id : I) (s : GlobalState I) → (delete_account same id s).tasks ≡ s.tasks
  unfolding delete_account
  tasks-delete id s = elim (Option-cases (lookup same id s.state)) [
    | inl e ↦ rw (delete_account, e)
    | inr (info, e) ↦ rw (delete_account, e)
  ]

  turn-lookup :
      (id : I) (name : Text) (file : Option (List ℕ)) (s : GlobalState I) (info : AccountInfo)
      → lookup same id s.state ≡ some info
      → lookup same id (sync_turn same id name file s).state
        ≡ some (record info { account = record info.account { name = name; avatar_image = file } })
  unfolding sync_turn
  turn-lookup id name file s info e =
      rw (sync_turn, e) (insert_same same same_iff id id _ s.state ((same_iff id id).1 refl))

  -- When an account is deleted and then added again with another instance, the task of the old
  -- instance is still there, and its next turn writes the profile of the old instance into the
  -- account of the new one.
  pub sync_turn-readded :
      (create_router : ℕ → ℕ) (to_string : I → Text) (id : I) (a b : ℕ) (tasks : List (I × ℕ))
      (name : Text) (file : Option (List ℕ)) (s : GlobalState I)
      → s.tasks ≡ (id, a) ∷ tasks
      → let again =
          add_account_instance same create_router to_string id b (delete_account same id s) in
        (again.tasks ≡ (id, b) ∷ (id, a) ∷ tasks)
        × (lookup same id (sync_turn same id name file again).state
            ≡ some (record {
              account = record { session_id = to_string id; name = name; avatar_image = file };
              account_instance = some (record { account_state = b; router = create_router b });
            }))
  unfolding add_account_instance
  sync_turn-readded create_router to_string id a b tasks name file s e =
      let deleted = delete_account same id s in
      (
        ap (◌∷◌ (id, b)) (tasks-delete id s ∙ e),
        turn-lookup id name file (add_account_instance same create_router to_string id b deleted) _
            (insert_same same same_iff id id _ deleted.state ((same_iff id id).1 refl)),
      )
