-- ===== src/SessionId/Tests.antt =====
-- Witnesses for the theorems on ids, with a key of zeros.
use session_cli.Base.{ℕ, zero, suc, ◌≡◌, refl, List, [], ◌∷◌, arith, some, ok}
use session_cli.Key.{IsBytes, from_binary}
use session_cli.Key.Example.{hex_codec}
use session_cli.SessionId.{IdType, Kind, new, as_str, from_str}
use session_cli.SessionId.Parse.{from_str-as_str}

abbrev repeat : ℕ → ℕ → List ℕ
repeat zero x = []
repeat (suc n) x = x ∷ repeat n x

repeat-IsBytes : (n : ℕ) → IsBytes (repeat n 7)
repeat-IsBytes zero = tt
repeat-IsBytes (suc n) = (omega arith, repeat-IsBytes n)

abbrev sevens : List ℕ
sevens = repeat 32 7

abbrev seven_id : Kind → IdType
seven_id k = record {
  backing_key = from_binary sevens;
  display = some (as_str hex_codec k (new (from_binary sevens)));
}

from_str-as_str_run :
    from_str hex_codec Kind.group (as_str hex_codec Kind.group (new (from_binary sevens)))
    ≡ ok (seven_id Kind.group)
from_str-as_str_run = from_str-as_str hex_codec Kind.group sevens (repeat-IsBytes 32) refl
