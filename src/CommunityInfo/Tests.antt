-- ===== src/CommunityInfo/Tests.antt =====
-- Rooms whose description is the number of its updates.
use session_cli.Base.{ℕ, ◌≡◌, refl, sym, [], ◌∷◌, Option, none, some, ok, ltb, if◌then◌else◌}
use session_cli.Base.Int.{ℤ, pos, negsuc}
use session_cli.Base.Assoc.{lookup}
use session_cli.Base.Text.{Text, codes}
use session_cli.Settings.{Setting, load_setting}
use session_cli.CommunityInfo.{InfoTurn, InfoState, fetch, info_turns, sync_community_info}
use session_cli.CommunityInfo.Stored.{sync_community_info-stored, info_turns-lost}

abbrev number_setting : Setting ℕ ℕ ℕ
number_setting = record {
  name = codes "community_room_info";
  to_sql = λ n. ok n;
  from_sql = λ n. ok n;
  reread = λ n. n;
  from_sql-to_sql = λ t v e. sym e;
}

abbrev newest : ℕ → ℤ → Option ℕ
newest n (pos m) = if ltb m n then some n else none
newest n (negsuc m) = some n

-- A server at a number of updates, and a database that is well or not.
abbrev turn_at : ℕ → Option ℕ → InfoTurn ℕ ℕ
turn_at n fault = record {
  poll_room_info = λ room last. ok (newest n last);
  get_room = λ room. ok n;
  fault = fault;
}

abbrev room : Text
room = codes "room"

sync_community_info-stored_example :
    (s : InfoState ℕ) × (sync_community_info number_setting pos room room
        (turn_at 3 none ∷ turn_at 3 none ∷ turn_at 5 none ∷ [])
        []
      ≡ ok s)
    × (load_setting number_setting room s.table ≡ ok (some 5))
unfolding load_setting lookup
sync_community_info-stored_example =
    sync_community_info-stored number_setting pos room room
      (turn_at 3 none ∷ turn_at 3 none ∷ turn_at 5 none ∷ []) [] (λ i. (i, refl)) (λ i. refl)
      (refl, (refl, (refl, tt))) refl

abbrev fresh : InfoState ℕ
fresh = record { last_room_update = none; table = [] }

fetched_three : fetch number_setting pos room room (turn_at 3 (some 1)) none ≡ ok (some 3)
unfolding fetch
fetched_three = refl

info_turns-lost_example :
    (info_turns number_setting pos room room
      (turn_at 3 (some 1) ∷ turn_at 3 none ∷ turn_at 3 none ∷ [])
      fresh).table
    ≡ []
info_turns-lost_example =
    info_turns-lost number_setting pos room room (turn_at 3 (some 1))
      (turn_at 3 none ∷ turn_at 3 none ∷ []) fresh 3 1 fetched_three refl (refl, (refl, tt))
