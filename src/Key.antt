-- ===== src/Key.antt =====
-- libsession-ui-core/src/key/macros.rs: `define_key_type!`, a key of a fixed length with its
-- hexadecimal text, which is made on first use or kept from the text that the key was read from.
-- The crate `hex` is a parameter. `OnceLock` is an option: `none` is not yet set.
pub mod Laws
pub mod Example
mod Tests
use session_cli.Base.{
  ℕ, ◌<◌, ◌≡◌, Bool, true, false, List, [], ◌∷◌, Option, none, some, Result, ok, err, ok_or, ◌>>=◌,
  ensure, ◌>>◌, length, ◌==◌,
}
use session_cli.Base.Text.{Text, text_eq}

-- Every number is a `u8`.
abbrev pub IsBytes : List ℕ → Type 0
IsBytes [] = Unit
IsBytes (x ∷ xs) = (x < 256) × IsBytes xs

-- `hex::encode`, and `hex::decode_to_slice` into a buffer of a length: the buffer, or an error.
pub record HexCodec : Type 0 where
  pub encode : List ℕ → Text
  pub decode_to_slice : Text → ℕ → Option (List ℕ)
  -- what was encoded decodes into a buffer of its length
  pub decode-encode : (b : List ℕ) → IsBytes b → decode_to_slice (encode b) (length b) ≡ some b
  -- a buffer is filled whole
  pub length-decode : (s : Text) (n : ℕ) (b : List ℕ) → decode_to_slice s n ≡ some b → length b ≡ n
  pub decode-IsBytes : (s : Text) (n : ℕ) (b : List ℕ) → decode_to_slice s n ≡ some b → IsBytes b

pub data KeyError : Type 0 where
  decoding_hex invalid_length : KeyError

pub record Key : Type 0 where
  pub binary : List ℕ
  pub hex : Option Text

-- `From<[u8; LEN]>`
abbrev pub from_binary : List ℕ → Key
from_binary binary = record { binary = binary; hex = none }

-- `PartialEq`: the cached text is not compared.
unfoldable pub key_eq : Key → Key → Bool
key_eq a b = text_eq a.binary b.binary

-- `TryFrom<&[u8]>`
unfoldable pub try_from_slice : ℕ → List ℕ → Result KeyError Key
try_from_slice len slice = do ensure (length slice == len) invalid_length; ok (from_binary slice)

module _ (codec : HexCodec) where
  unfoldable pub from_hex : ℕ → Text → Result KeyError Key
  from_hex len hex = do
    binary ← ok_or (codec.decode_to_slice hex len) decoding_hex
    ok (record { binary = binary; hex = some hex })

  -- `hex`, `hex_cstr`, `Display`
  unfoldable pub hex_text : Key → Text
  hex_text k = elim k.hex [ some h ↦ h | none ↦ codec.encode k.binary ]
