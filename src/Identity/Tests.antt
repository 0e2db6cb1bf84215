-- ===== src/Identity/Tests.antt =====
-- An identity of a seed of sevens, whose keys are the seed itself.
use session_cli.Base.{
  ℕ, zero, suc, ◌+◌, ◌*◌, ◌/◌, ◌≡◌, refl, ap, ◌∙◌, true, List, [], ◌∷◌, ok, err, arith, length,
  replicate,
}
use session_cli.Base.Text.{Text}
use session_cli.Key.{IsBytes}
use session_cli.Key.Example.{hex_codec}
use session_cli.Mnemonic.{decode}
use session_cli.Mnemonic.Digits.{is_hex, all_hex}
use session_cli.Mnemonic.Example.{twelves, twelves-IsWordList}
use session_cli.Identity.{
  EdKeys, HexText, panic, Identity, serialize, deserialize, new_identity, from_mnemonic,
  mnemonic_of,
}
use session_cli.Identity.Restored.{
  Made, by_generate, by_deserialize, from_mnemonic-mnemonic_of, from_mnemonic_long,
}

length-encode : (b : List ℕ) → length (hex_codec.encode b) ≡ 2 * length b
unfolding hex_codec
length-encode [] = omega arith
length-encode (x ∷ b) = omega (arith, length-encode b)

half-length : (b : List ℕ) → length (hex_codec.encode b) / 2 ≡ length b
half-length b = omega (arith, length-encode b)

all_hex-encode : (b : List ℕ) → IsBytes b → all_hex (hex_codec.encode b) ≡ true
unfolding hex_codec is_hex
all_hex-encode [] h = refl
all_hex-encode (x ∷ b) (l, h) = ground (arith, l, all_hex-encode b h)

abbrev hex_text : HexText
hex_text = record {
  encode_bytes = hex_codec.encode;
  decode_text = λ s. hex_codec.decode_to_slice s (length s / 2);
  decode-encode = λ b h.
      ap (λ n. hex_codec.decode_to_slice (hex_codec.encode b) n) (half-length b)
      ∙ hex_codec.decode-encode b h;
  length-encode = length-encode;
  all_hex-encode = all_hex-encode;
  decode-IsBytes = λ s b e. hex_codec.decode-IsBytes s (length s / 2) b e;
}

abbrev seed_keys : EdKeys
seed_keys = record {
  pair_from_seed = λ seed. (seed, seed);
  seed_of = λ sec. sec;
  public_to_curve = λ pub_key. pub_key;
  secret_to_curve = λ sec. sec;
  seed_of-pair = λ seed n. refl;
}

abbrev sevens : ℕ → List ℕ
sevens n = replicate n 7

sevens-IsBytes : (n : ℕ) → IsBytes (sevens n)
sevens-IsBytes zero = tt
sevens-IsBytes (suc n) = (omega arith, sevens-IsBytes n)

abbrev sum_of : List ℕ → ℕ
sum_of [] = 0
sum_of (x ∷ xs) = x + sum_of xs

abbrev seven : Identity
seven = new_identity seed_keys (seed_keys.pair_from_seed (sevens 32))

seven-Made :
    Made seed_keys hex_text sum_of twelves-IsWordList (deserialize seed_keys (serialize seven))
seven-Made = by_deserialize (by_generate (sevens 32) refl (sevens-IsBytes 32))

from_mnemonic-mnemonic_of_example :
    let i = deserialize seed_keys (serialize seven) in
    (text : Text) × (mnemonic_of seed_keys hex_text sum_of twelves i ≡ ok text)
    × (from_mnemonic seed_keys hex_text sum_of twelves text ≡ ok i)
    × (deserialize seed_keys (serialize i) ≡ i)
from_mnemonic-mnemonic_of_example =
    from_mnemonic-mnemonic_of seed_keys hex_text sum_of twelves-IsWordList seven-Made

from_mnemonic_long_example :
    (text : Text) × (decode sum_of text twelves ≡ ok (hex_text.encode_bytes (sevens 36)))
    × (from_mnemonic seed_keys hex_text sum_of twelves text ≡ err panic)
from_mnemonic_long_example =
    from_mnemonic_long seed_keys hex_text sum_of twelves-IsWordList 9 (sevens 36) (omega arith) refl
      (sevens-IsBytes 36)
