-- ===== src/Watcher/Tests.antt =====
-- Receivers of two channels, one of which is read by its parity.
use session_cli.Base.{
  ℕ, ◌+◌, ◌*◌, ◌≡◌, refl, ==_iff, true, List, [], ◌∷◌, ◌==◌, if◌then◌else◌, arith,
}
use session_cli.Watcher.{
  pending, changed_to, WatcherReceiver, Watcher, waiting, combine_watcher_receivers,
  send_if_modified, try_select, wake, wakes, connect_to,
}
use session_cli.Watcher.Combined.{settles, IsSteady, combine_settles, combine-IsSteady}
use session_cli.Watcher.Connected.{IsCurrent, connect_to-IsCurrent}

-- A channel whose versions are numbers, and whose value is ten times its version.
unfoldable one_channel : WatcherReceiver (ℕ × ℕ) ℕ ℕ
one_channel = record {
  resubscribe = λ seen. seen;
  borrow = λ _ w. w.0 * 10;
  changed = λ seen w. if seen == w.0 then pending else changed_to w.0;
}

unfoldable other_channel : WatcherReceiver (ℕ × ℕ) ℕ ℕ
other_channel = record {
  resubscribe = λ seen. seen;
  borrow = λ _ w. w.1;
  changed = λ seen w. if seen == w.1 then pending else changed_to w.1;
}

one_channel-settles : (seen : ℕ) (w : ℕ × ℕ) → settles one_channel 1 seen w ≡ true
unfolding settles one_channel
one_channel-settles seen w = ground arith

other_channel-settles : (seen : ℕ) (w : ℕ × ℕ) → settles other_channel 1 seen w ≡ true
unfolding settles other_channel
other_channel-settles seen w = ground arith

same_version : (seen v : ℕ) → (if seen == v then pending else changed_to v) ≡ pending → seen ≡ v
same_version seen v e = ground (arith, e)

one_channel-IsSteady : IsSteady one_channel
unfolding one_channel
one_channel-IsSteady seen w w' e g =
    omega (arith, same_version seen w.0 e, same_version seen w'.0 g)

other_channel-IsSteady : IsSteady other_channel
unfolding other_channel
other_channel-IsSteady seen w w' e g =
    omega (arith, same_version seen w.1 e, same_version seen w'.1 g)

abbrev both : WatcherReceiver (ℕ × ℕ) (ℕ × ℕ) ℕ
both = combine_watcher_receivers one_channel other_channel ◌+◌

abbrev moments : List (ℕ × ℕ)
moments = (1, 0) ∷ (1, 10) ∷ (2, 0) ∷ []

-- The last moment changes both channels, and the sum does not: nothing is told twice.
connected :
    connect_to ◌==◌ both 2 (0, 0) (0, 0) moments (record { value = 0; notified = [] })
    ≡ waiting (2, 0) (record { value = 20; notified = 10 ∷ 20 ∷ [] })
unfolding connect_to wakes wake send_if_modified combine_watcher_receivers try_select one_channel
    other_channel
connected = refl

abbrev zero_watcher : Watcher ℕ
zero_watcher = record { value = 0; notified = [] }

combine_settles_example : settles both 2 (0, 0) (1, 10) ≡ true
combine_settles_example =
    combine_settles one_channel other_channel ◌+◌ 1 1 0 0 (1, 10) (one_channel-settles 0 (1, 10))
      (other_channel-settles 0 (1, 10))

both-settles : (seen : ℕ × ℕ) (w : ℕ × ℕ) → settles both 2 seen w ≡ true
both-settles seen w =
    combine_settles one_channel other_channel ◌+◌ 1 1 seen.0 seen.1 w (one_channel-settles seen.0 w)
      (other_channel-settles seen.1 w)

both-IsSteady : IsSteady both
both-IsSteady =
    combine-IsSteady one_channel other_channel ◌+◌ one_channel-IsSteady other_channel-IsSteady

connect_to-IsCurrent_example :
    IsCurrent both (2, 0) (connect_to ◌==◌ both 2 (0, 0) (0, 0) moments zero_watcher)
connect_to-IsCurrent_example =
    connect_to-IsCurrent ◌==◌ ==_iff both 2 both-settles both-IsSteady (0, 0) (0, 0) moments
      zero_watcher
