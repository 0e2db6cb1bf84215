-- ===== src/Base/Decimal.antt =====
-- `u64::to_string`: decimal digits.
use session_cli.Base.{ℕ, zero, suc, ◌+◌, ◌/◌, ◌%◌, [], ◌∷◌, ltb, if◌then◌else◌}
use session_cli.Base.Text.{Text}

-- On fuel; `n + 1` rounds are more than the number of digits.
digits : ℕ → ℕ → Text → Text
digits zero n rest = rest
digits (suc fuel) n rest =
    let more = digits fuel (n / 10) ((b'0' + n % 10) ∷ rest) in
    if ltb n 10 then (b'0' + n) ∷ rest else more

unfoldable pub decimal : ℕ → Text
unfolding digits
decimal n = digits (n + 1) n []
