-- ===== src/Key/Tests.antt =====
-- Witnesses for the theorems on keys.
use session_cli.Base.{ℕ, ◌≡◌, refl, List, [], ◌∷◌, arith, some, ok}
use session_cli.Base.Text.{codes}
use session_cli.Key.{IsBytes, from_hex}
use session_cli.Key.Example.{hex_codec}

abbrev two_bytes : List ℕ
two_bytes = 5 ∷ 171 ∷ []

two_bytes-IsBytes : IsBytes two_bytes
two_bytes-IsBytes = (omega arith, (omega arith, tt))

read :
    from_hex hex_codec 2 (codes "05ab")
    ≡ ok (record { binary = two_bytes; hex = some (codes "05ab") })
unfolding from_hex hex_codec
read = refl
