-- ===== src/Community/Worker.antt =====
-- The requests of the worker, its first load and its main loop. What the server answers, and
-- whether the database takes a write, is an argument of each step.
use session_cli.Base.{
  ℕ, Bool, true, false, List, [], ◌∷◌, Option, none, some, Result, ok, err, if◌then◌else◌,
}
use session_cli.Base.Int.{ℤ, pos}
use session_cli.Base.Text.{Text}
use session_cli.Community.Save.{SaveError, Saved, save_messages_and_sync_state}
use session_cli.Community.{Db}
use session_cli.Sogs.{MessageOrDelete}
use session_cli.SyncState.{CommunityMessageSyncState, get_community_message_sync_state}

abbrev pub load_limit : ℕ
load_limit = 256

-- `GetMessagesSince`, `GetMessagesBefore` and `GetRecentMessages` for the worker's room
pub data Request : Type 0 where
  since : ℤ → ℕ → Request
  before : ℕ → ℕ → Request
  recent : ℕ → Request

abbrev pub Page : Type 0
Page = List (MessageOrDelete (List ℕ))

-- A server: what it answers to a request, or the error of the call.
abbrev pub Server {ℓ} : Type ℓ → Type ℓ
Server F = Request → Result F Page

pub data LoadError {ℓ} (F : Type ℓ) : Type ℓ where
  request_failed : F → LoadError F
  save_failed : SaveError F → LoadError F
  cancelled : LoadError F

pub record Loaded {ℓ κ} (C : Type ℓ) (F : Type κ) : Type (ℓ ⊔ κ) where
  pub db : Db C
  pub sync_state : CommunityMessageSyncState
  pub result : Result (LoadError F) ℕ

-- What the main loop waits for.
pub data Event {ℓ} (F : Type ℓ) : Type ℓ where
  load_earlier : Server F → Option F → Event F
  poll : Server F → Option F → Event F

-- The worker between two rounds, with the answers to the callbacks and the reported errors so far,
-- the latest first.
pub record Worker {ℓ κ} (C : Type ℓ) (F : Type κ) : Type (ℓ ⊔ κ) where
  pub db : Db C
  pub sync_state : CommunityMessageSyncState
  pub answers : List (Result (LoadError F) ℕ)
  pub reported : List (LoadError F)

-- One attempt of the first load: the server, the fault of the database, and whether the strategy
-- goes on after a failure.
pub record Attempt {ℓ} (F : Type ℓ) : Type ℓ where
  pub server : Server F
  pub fault : Option F
  pub next_poll : Bool

-- The state of a community that was never read.
abbrev pub initial_state : CommunityMessageSyncState
initial_state = record { has_earlier_messages = true; earliest_message_id = 0; latest_seq = pos 0 }

module _ {ℓ κ μ} {C : Type ℓ} {E : Type κ} {F : Type μ} (decode : List ℕ → Result E C)
    (id : Text) where
  abbrev loaded : Saved C F → Loaded C F
  loaded r = record {
    db = r.db;
    sync_state = r.sync_state;
    result = elim r.result [ ok n ↦ ok n | err e ↦ err (save_failed e) ];
  }

  -- The answer of the server is saved; a failed call changes nothing.
  abbrev save_page :
      Result F Page → Option F → Bool → Bool → Db C → CommunityMessageSyncState → Loaded C F
  save_page (ok messages) fault earliest latest db s =
      loaded (save_messages_and_sync_state decode id fault messages earliest latest db s)
  save_page (err e) fault earliest latest db s = record {
    db = db;
    sync_state = s;
    result = err (request_failed e);
  }

  unfoldable pub load_latest_messages :
      Server F → Option F → Db C → CommunityMessageSyncState → Loaded C F
  load_latest_messages server fault db s =
      save_page (server (since s.latest_seq load_limit)) fault false true db s

  unfoldable pub load_earlier_messages :
      Server F → Option F → Db C → CommunityMessageSyncState → Loaded C F
  load_earlier_messages server fault db s =
      save_page (server (before s.earliest_message_id load_limit)) fault true false db s

  -- `none` while every attempt so far failed and the strategy goes on.
  unfoldable pub load_initial_messages : List (Attempt F) → Db C → Option (Loaded C F)
  load_initial_messages [] db = none
  load_initial_messages (a ∷ more) db =
      let rest = load_initial_messages more db in
      elim (a.server (recent load_limit)) [
        | ok v ↦ some (save_page (ok v) a.fault true true db initial_state)
        | err e ↦
            if a.next_poll
            then rest
            else some (record { db = db; sync_state = initial_state; result = err cancelled })
      ]

  -- A round of the main loop.
  unfoldable pub step : Event F → Worker C F → Worker C F
  unfolding load_latest_messages load_earlier_messages
  step (load_earlier server fault) w =
      if w.sync_state.has_earlier_messages
      then (let r = load_earlier_messages server fault w.db w.sync_state in
          record {
            db = r.db;
            sync_state = r.sync_state;
            answers = r.result ∷ w.answers;
            reported = w.reported;
          })
      else record w { answers = ok 0 ∷ w.answers }
  step (poll server fault) w =
      let r = load_latest_messages server fault w.db w.sync_state in
      record {
        db = r.db;
        sync_state = r.sync_state;
        answers = w.answers;
        reported = elim r.result [ ok _ ↦ w.reported | err e ↦ e ∷ w.reported ];
      }

  -- The main loop, until the command channel is closed.
  unfoldable pub main_loop : List (Event F) → Worker C F → Worker C F
  main_loop [] w = w
  main_loop (e ∷ es) w = main_loop es (step e w)

  abbrev started : Loaded C F → List (Event F) → Result (LoadError F) (Worker C F)
  started r events = elim r.result [
    | ok _ ↦ ok (
        main_loop events
          (record { db = r.db; sync_state = r.sync_state; answers = []; reported = [] }))
    | err e ↦ err e
  ]

  -- The whole worker; `none` while the first load is not done.
  unfoldable pub download_community_messages :
      List (Attempt F) → List (Event F) → Db C → Option (Result (LoadError F) (Worker C F))
  unfolding load_initial_messages
  download_community_messages attempts events db =
      elim (get_community_message_sync_state id db.sync_states) [
        | some s ↦ some (
            ok (main_loop events (record { db = db; sync_state = s; answers = []; reported = [] })))
        | none ↦ elim (load_initial_messages attempts db) [
          | none ↦ none
          | some r ↦ some (started r events)
        ]
      ]
