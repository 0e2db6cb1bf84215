-- ===== src/Padding.antt =====
-- libsession-ui-core/src/crypto.rs: `pad_message` and `strip_message_padding`.
pub mod RoundTrip
mod Tests
use session_cli.Base.{
  ℕ, zero, suc, ◌+◌, ◌-◌, ◌%◌, Bool, not, ◌||◌, List, [], ◌∷◌, ◌++◌, Option, none, some, length,
  get_or, take, replicate, leb, ◌==◌, if◌then◌else◌,
}

-- `Iterator::rposition`: the index of the last element that passes the test
unfoldable pub rposition : (ℕ → Bool) → List ℕ → Option ℕ
rposition p [] = none
rposition p (x ∷ xs) = elim (rposition p xs) [
  | some i ↦ some (suc i)
  | none ↦ if p x then some 0 else none
]

-- `Vec::resize`
unfoldable pub resize : List ℕ → ℕ → ℕ → List ℕ
resize v n x = if leb n (length v) then take n v else v ++ replicate (n - length v) x

-- `x == 0x80 || x != 0x00`
abbrev pub marks : ℕ → Bool
marks x = x == 0x80 || not (x == 0x00)

abbrev strip_at : List ℕ → Option ℕ → List ℕ
strip_at bytes none = bytes
strip_at bytes (some padding_start) =
    if get_or bytes padding_start 0 == 0x80 then take padding_start bytes else bytes

unfoldable pub strip_message_padding : List ℕ → List ℕ
unfolding rposition
strip_message_padding bytes = strip_at bytes (rposition marks bytes)

unfoldable pub pad_message : List ℕ → List ℕ
unfolding resize
pad_message bytes =
    let owned = bytes ++ 0x80 ∷ [] in
    let padding = 160 - length owned % 160 in resize owned (length owned + padding) 0
