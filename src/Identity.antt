-- ===== src/Identity.antt =====
-- libsession-ui-core/src/identity.rs: `Identity`, the keys of an account, made from a pair of keys, a
-- mnemonic or a serialised value; `pad_ed25519_seed` of libsession-ui-core/src/key/ed25519.rs.
-- The keys are made by libsession, `EdKeys`, and the crate hex by `HexText`. Keys are their bytes. A
-- copy from a slice of another length is `panic`.
pub mod Restored
mod Tests
use session_cli.Base.{
  ℕ, ◌+◌, ◌-◌, ◌*◌, ◌<◌, ◌≤◌, ◌≡◌, Bool, true, List, [], ◌∷◌, ◌++◌, Option, none, some, Result, ok,
  err, ok_or, ◌>>=◌, length, leb, replicate, if◌then◌else◌,
}
use session_cli.Base.Text.{Text}
use session_cli.Key.{IsBytes, from_binary}
use session_cli.SessionId.{IdType, new}
use session_cli.Mnemonic.{CodecError, Language, encode, decode}
use session_cli.Mnemonic.Digits.{all_hex}

-- What the bindings of libsession make of keys.
pub record EdKeys : Type 0 where
  pub pair_from_seed : List ℕ → List ℕ × List ℕ
  pub seed_of : List ℕ → List ℕ
  pub public_to_curve : List ℕ → List ℕ
  pub secret_to_curve : List ℕ → List ℕ
  -- a secret key has the seed that it was made from
  pub seed_of-pair : (seed : List ℕ) → length seed ≡ 32 → seed_of (pair_from_seed seed).1 ≡ seed

-- `hex::encode` and `hex::decode`
pub record HexText : Type 0 where
  pub encode_bytes : List ℕ → Text
  pub decode_text : Text → Option (List ℕ)
  pub decode-encode : (b : List ℕ) → IsBytes b → decode_text (encode_bytes b) ≡ some b
  -- two digits for a byte, in lower case
  pub length-encode : (b : List ℕ) → length (encode_bytes b) ≡ 2 * length b
  pub all_hex-encode : (b : List ℕ) → IsBytes b → all_hex (encode_bytes b) ≡ true
  pub decode-IsBytes : (s : Text) (b : List ℕ) → decode_text s ≡ some b → IsBytes b

pub data IdentityError : Type 0 where
  decoding_mnemonic : CodecError → IdentityError
  decoding_hex : IdentityError
  panic : IdentityError

pub record Identity : Type 0 where
  pub sec_key : List ℕ
  pub ed25519_key_pair : List ℕ × List ℕ
  pub session_id : IdType

-- `IdentitySerdeValue`
pub record SerdeValue : Type 0 where
  pub ed25519_pub_key : List ℕ
  pub ed25519_sec_key : List ℕ
  pub session_id : IdType

-- `padded_seed[..seed.len().min(32)].copy_from_slice(seed)`
unfoldable pub pad_ed25519_seed : List ℕ → Option (List ℕ)
pad_ed25519_seed seed =
    if leb (length seed) 32 then some (seed ++ replicate (32 - length seed) 0) else none

-- `with_context` on what the codec answers
abbrev pub in_context : Result CodecError Text → Result IdentityError Text
in_context (ok s) = ok s
in_context (err e) = err (decoding_mnemonic e)

unfoldable pub serialize : Identity → SerdeValue
serialize i = record {
  ed25519_pub_key = i.ed25519_key_pair.0;
  ed25519_sec_key = i.ed25519_key_pair.1;
  session_id = i.session_id;
}

module _ (keys : EdKeys) where
  -- `new`; `generate` is it on a pair that libsession draws.
  unfoldable pub new_identity : List ℕ × List ℕ → Identity
  new_identity pair = record {
    sec_key = keys.secret_to_curve pair.1;
    ed25519_key_pair = pair;
    session_id = new (from_binary (keys.public_to_curve pair.0));
  }

  unfoldable pub deserialize : SerdeValue → Identity
  unfolding new_identity
  deserialize value = new_identity (value.ed25519_pub_key, value.ed25519_sec_key)

  module _ (hex : HexText) (checksum : List ℕ → ℕ) (english : Language) where
    unfoldable pub from_mnemonic : Text → Result IdentityError Identity
    unfolding pad_ed25519_seed new_identity
    from_mnemonic mnemonic = do
      text ← in_context (decode checksum mnemonic english)
      seed ← ok_or (hex.decode_text text) decoding_hex
      padded ← ok_or (pad_ed25519_seed seed) panic
      ok (new_identity (keys.pair_from_seed padded))

    unfoldable pub mnemonic_of : Identity → Result CodecError Text
    mnemonic_of i = encode checksum (hex.encode_bytes (keys.seed_of i.ed25519_key_pair.1)) english
