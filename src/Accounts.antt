-- ===== src/Accounts.antt =====
-- libsession-ui-core/src/service/manager/state.rs: `GlobalState`, the accounts of the manager with the
-- instances of those that are in use, and the tasks that copy the profile of an instance into them.
-- An `IndexMap` is an association list in its order. An account and its router are numbers, the
-- router being what `create_router` makes; a task is the id and the account that it was spawned with.
pub mod Ids
pub mod Routers
pub mod Profiles
mod Tests
use session_cli.Base.{
  ℕ, ◌+◌, ◌≡◌, Bool, true, false, not, ◌&&◌, List, [], ◌∷◌, ◌++◌, Option, none, some, Result, ok,
  err, if◌then◌else◌,
}
use session_cli.Base.Assoc.{lookup, replace}
use session_cli.Base.Text.{Text}

-- The account that clients are told of.
pub record ProtoAccount : Type 0 where
  pub session_id : Text
  pub name : Text
  pub avatar_image : Option (List ℕ)

pub record AccountInstance : Type 0 where
  pub account_state : ℕ
  pub router : ℕ

pub record AccountInfo : Type 0 where
  pub account : ProtoAccount
  pub account_instance : Option AccountInstance

abbrev pub AccountMap {ℓ} : Type ℓ → Type ℓ
AccountMap I = List (I × AccountInfo)

-- The map, the tasks spawned, and how often the map was sent to its watchers.
pub record GlobalState {ℓ} (I : Type ℓ) : Type ℓ where
  pub state : AccountMap I
  pub tasks : List (I × ℕ)
  pub sent : ℕ

module _ {ℓ} {I : Type ℓ} (same : I → I → Bool) where
  -- `shift_remove`
  unfoldable pub shift_remove : I → AccountMap I → AccountMap I
  shift_remove id [] = []
  shift_remove id ((j, info) ∷ map) = if same j id then map else (j, info) ∷ shift_remove id map

  -- `IndexMap::insert`: in place where the key is there, else at the end.
  abbrev pub insert : I → AccountInfo → AccountMap I → AccountMap I
  insert id info map = replace same id info map

  -- `new`, on the accounts of the database and the ids that their texts are read as
  unfoldable pub new : List (Option I × ProtoAccount) → AccountMap I → AccountMap I
  new [] map = map
  new ((none, account) ∷ accounts) map = new accounts map
  new ((some id, account) ∷ accounts) map =
      new accounts (insert id (record { account = account; account_instance = none }) map)

  unfoldable pub delete_account : I → GlobalState I → GlobalState I
  unfolding shift_remove
  delete_account id s = elim (lookup same id s.state) [
    | none ↦ s
    | some _ ↦ record s { state = shift_remove id s.state; sent = s.sent + 1 }
  ]

  -- A turn of `sync_account_state`, with the name and the picture that the profile of the task's
  -- account has.
  unfoldable pub sync_turn : I → Text → Option (List ℕ) → GlobalState I → GlobalState I
  sync_turn id name file s = elim (lookup same id s.state) [
    | none ↦ s
    | some info ↦ record s {
      state =
          insert id
            (record info { account = record info.account { name = name; avatar_image = file } })
            s.state;
      sent = s.sent + 1;
    }
  ]

  -- `create_response_from_state`
  unfoldable pub create_response_from_state : AccountMap I → List ProtoAccount
  create_response_from_state [] = []
  create_response_from_state ((_, info) ∷ map) = info.account ∷ create_response_from_state map

  module _ (create_router : ℕ → ℕ) (to_string : I → Text) where
    unfoldable pub add_account_instance : I → ℕ → GlobalState I → GlobalState I
    add_account_instance id a s = record {
      state =
          insert id
            (record {
              account = record { session_id = to_string id; name = []; avatar_image = none };
              account_instance = some (record { account_state = a; router = create_router a });
            })
            s.state;
      tasks = (id, a) ∷ s.tasks;
      sent = s.sent + 1;
    }

    -- The lock is held through the second look, so the two looks are one.
    unfoldable pub get_or_create_account_router {κ} :
        {E : Type κ} → I → Result E ℕ → GlobalState I → Result E (Option ℕ) × GlobalState I
    get_or_create_account_router id create s = elim (lookup same id s.state) [
      | none ↦ (ok none, s)
      | some info ↦ elim info.account_instance [
        | some i ↦ (ok (some i.router), s)
        | none ↦ elim create [
          | err e ↦ (err e, s)
          | ok a ↦ (
            ok (some (create_router a)),
            record {
              state =
                  insert id
                    (record info {
                      account_instance =
                          some (record { account_state = a; router = create_router a });
                    })
                    s.state;
              tasks = (id, a) ∷ s.tasks;
              sent = s.sent + 1;
            },
          )
        ]
      ]
    ]

    -- What is done with the state; a turn is one of a task that was spawned.
    pub data Use {κ} (E : Type κ) (s : GlobalState I) : GlobalState I → Type (ℓ ⊔ κ) where
      added : (id : I) (a : ℕ) → Use E s (add_account_instance id a s)
      asked :
          (id : I) (create : Result E ℕ)
          → Use E s (get_or_create_account_router {E = E} id create s).1
      deleted : (id : I) → Use E s (delete_account id s)
      synced :
          (id : I) (a : ℕ) (before after : List (I × ℕ)) (name : Text) (file : Option (List ℕ))
          → s.tasks ≡ before ++ (id, a) ∷ after
          → Use E s (sync_turn id name file s)
