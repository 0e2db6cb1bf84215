-- ===== src/Accounts/Tests.antt =====
-- Witnesses for the theorems on accounts; an id is a number.
use session_cli.Base.{
  ℕ, ◌+◌, ◌≡◌, refl, Bool, List, [], ◌∷◌, Option, none, some, Result, ok, err, ◌==◌, ==_iff,
}
use session_cli.Base.Assoc.{lookup, replace}
use session_cli.Base.Text.{Text, codes}
use session_cli.Accounts.{
  ProtoAccount, GlobalState, new, add_account_instance, get_or_create_account_router,
  delete_account, sync_turn, added,
}
use session_cli.Accounts.Routers
use session_cli.Accounts.Routers.{router_once}
use session_cli.Accounts.Profiles.{sync_turn-readded}

abbrev same : ℕ → ℕ → Bool
same a b = a == b

abbrev saved : List (Option ℕ × ProtoAccount)
saved =
    (some 7, record { session_id = codes "7"; name = codes "ann"; avatar_image = none })
    ∷ (none, record { session_id = codes "?"; name = codes "bob"; avatar_image = none })
    ∷ []

abbrev start : GlobalState ℕ
start = record { state = new same saved []; tasks = []; sent = 0 }

abbrev to_string : ℕ → Text
to_string id = id ∷ []

abbrev router : ℕ → ℕ
router a = a + 100

abbrev created : Result Text ℕ
created = ok 1

abbrev failing : Result Text ℕ
failing = err []

abbrev opened : GlobalState ℕ
opened = (get_or_create_account_router same router to_string 7 created start).1

router_once_example :
    get_or_create_account_router same router to_string 7 failing
      (add_account_instance same router to_string 8 2 opened)
    ≡ (ok (some 101), add_account_instance same router to_string 8 2 opened)
unfolding get_or_create_account_router new replace lookup
router_once_example =
    router_once same ==_iff router to_string 7 created failing start
      (add_account_instance same router to_string 8 2 opened) 101 refl
      (Routers.next Routers.here (added 8 2) refl)

sync_turn-readded_example :
    let again = add_account_instance same router to_string 7 2 (delete_account same 7 opened) in
    (again.tasks ≡ (7, 2) ∷ (7, 1) ∷ [])
    × (lookup same 7 (sync_turn same 7 (codes "old") none again).state
        ≡ some (record {
          account = record { session_id = 7 ∷ []; name = codes "old"; avatar_image = none };
          account_instance = some (record { account_state = 2; router = 102 });
        }))
unfolding get_or_create_account_router new replace lookup
sync_turn-readded_example =
    sync_turn-readded same ==_iff router to_string 7 1 2 [] (codes "old") none opened refl
