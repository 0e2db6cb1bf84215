-- ===== src/CommunityInfo.antt =====
-- libsession-ui-core/src/worker/community/sync_community_info.rs: the worker that keeps the description of
-- a room in the settings. Each turn asks the server, saves what is new, and waits for the next poll.
-- The server's answers, the faults of the database and the polls are the environment's.
pub mod Stored
mod Tests
use session_cli.Base.{
  ◌≡◌, Bool, true, false, List, [], ◌∷◌, Option, none, some, Result, ok, err, if◌then◌else◌,
}
use session_cli.Base.Int.{ℤ}
use session_cli.Base.Text.{Text}
use session_cli.Settings.{Settings, Setting, load_setting, save_setting}

-- What a turn meets: the answers of the server to `PollRoomInfo` and `GetRoom`, and a fault of the
-- saving.
pub record InfoTurn {ℓ κ} (E : Type ℓ) (I : Type κ) : Type (ℓ ⊔ κ) where
  pub poll_room_info : (room_id : Text) (last_info_updates : ℤ) → Result E (Option I)
  pub get_room : (room_id : Text) → Result E I
  pub fault : Option E

pub record InfoState {ℓ} (V : Type ℓ) : Type ℓ where
  pub last_room_update : Option ℤ
  pub table : Settings V

-- The answer to `GetRoom`, as that of a poll
abbrev pub whole_room {ℓ κ} : {E : Type ℓ} {I : Type κ} → Result E I → Result E (Option I)
whole_room (ok i) = ok (some i)
whole_room (err e) = err e

abbrev pub saved {ℓ κ} :
    {E : Type ℓ} {V : Type κ}
    → InfoState V
    → Result E (Settings V)
    → InfoState V × Result E (Unit {0})
saved s (ok table) = (record s { table = table }, ok tt)
saved s (err e) = (s, err e)

module _ {ℓ κ μ} {E : Type ℓ} {V : Type κ} {I : Type μ} (setting : Setting E V I)
    (info_updates : I → ℤ) (room : Text) (community_id : Text) where
  unfoldable pub fetch : InfoTurn E I → Option ℤ → Result E (Option I)
  fetch turn none = whole_room (turn.get_room room)
  fetch turn (some last) = turn.poll_room_info room last

  -- The number of updates is taken before the saving.
  unfoldable pub keep_info : InfoTurn E I → InfoState V → I → InfoState V × Result E (Unit {0})
  keep_info turn s info =
      let s' = record s { last_room_update = some (info_updates info) } in
      elim turn.fault [
        | some e ↦ (s', err e)
        | none ↦ saved s' (save_setting setting community_id info s.table)
      ]

  unfoldable pub info_turn : InfoTurn E I → InfoState V → InfoState V × Result E (Unit {0})
  unfolding fetch keep_info
  info_turn turn s = elim (fetch turn s.last_room_update) [
    | err e ↦ (s, err e)
    | ok none ↦ (s, ok tt)
    | ok (some info) ↦ keep_info turn s info
  ]

  -- The loop: the turns until `next_poll` is none; an error is reported to the strategy.
  unfoldable pub info_turns : List (InfoTurn E I) → InfoState V → InfoState V
  info_turns [] s = s
  info_turns (turn ∷ turns) s = info_turns turns (info_turn turn s).0

  abbrev pub start_at : Settings V → Option I → InfoState V
  start_at table none = record { last_room_update = none; table = table }
  start_at table (some i) = record { last_room_update = some (info_updates i); table = table }

  -- `sync_community_info`
  unfoldable pub sync_community_info : List (InfoTurn E I) → Settings V → Result E (InfoState V)
  sync_community_info turns table = elim (load_setting setting community_id table) [
    | err e ↦ err e
    | ok found ↦ ok (info_turns turns (start_at table found))
  ]
