-- ===== src/Mnemonic.antt =====
-- libsession-ui-core/src/mnemonic/codec.rs and libsession-ui-core/src/mnemonic/lang.rs: a hexadecimal
-- text as words of a language, and back.
-- Texts are ASCII, so that a slice is one of codes; a slice or an index out of range is `panic`. The
-- CRC-32 of the crate crc is the parameter `checksum`. A buffer has at least one word, so n > 0.
-- The buffer of the English list, which is not code, ends in a newline, and so does its last word.
pub mod Blocks
pub mod Digits
pub mod Words
pub mod Chunks
pub mod Example
pub mod RoundTrip
mod Tests
use session_cli.Base.{
  ℕ, zero, suc, ◌+◌, ◌-◌, ◌*◌, ◌/◌, ◌%◌, Bool, true, false, not, ◌&&◌, ◌||◌, List, [], ◌∷◌, ◌++◌,
  map, Option, none, some, Result, ok, err, ok_or, ensure, ◌>>=◌, ◌>>◌, leb, ltb, ◌==◌, length,
  take, drop, get_elem?, if◌then◌else◌,
}
use session_cli.Base.Text.{Text, text_eq, codes}

pub data CodecError : Type 0 where
  input_too_short missing_last_word no_checksum_word verification_fail generic : CodecError
  verification_failed panic : CodecError

pub record Language : Type 0 where
  pub words_buffer : Text
  pub prefix_length : ℕ

abbrev pub with_first : ℕ → List Text → List Text
with_first c [] = (c ∷ []) ∷ []
with_first c (w ∷ ws) = (c ∷ w) ∷ ws

-- `str::split` at a character
unfoldable pub split : ℕ → Text → List Text
split c [] = [] ∷ []
split c (x ∷ s) = if x == c then [] ∷ split c s else with_first x (split c s)

unfoldable pub words : Language → List Text
unfolding split
words lang = split b',' lang.words_buffer

unfoldable pub truncated_words : Language → List Text
unfolding words
truncated_words lang = map (λ w. take lang.prefix_length w) (words lang)

-- `&s[..n]`
unfoldable pub prefix_slice : ℕ → Text → Result CodecError Text
prefix_slice n s = if leb n (length s) then ok (take n s) else err panic

unfoldable pub swap : Text → Result CodecError Text
swap (a ∷ b ∷ c ∷ d ∷ e ∷ f ∷ g ∷ h ∷ _) = ok (g ∷ h ∷ e ∷ f ∷ c ∷ d ∷ a ∷ b ∷ [])
swap _ = err panic

-- `char::to_digit(16)`
unfoldable pub hex_value : ℕ → Option ℕ
hex_value c =
    if leb b'0' c && leb c b'9'
    then some (c - b'0')
    else if leb b'a' c && leb c b'f'
    then some (c - 87)
    else if leb b'A' c && leb c b'F'
    then some (c - 55)
    else none

unfoldable pub radix_16 : ℕ → Text → Option ℕ
radix_16 n [] = some n
radix_16 n (c ∷ s) = elim (hex_value c) [ none ↦ none | some v ↦ radix_16 (16 * n + v) s ]

-- `u64::from_str_radix(_, 16)`, which takes a sign, on at most eight digits
unfoldable pub from_str_radix : Text → Option ℕ
unfolding radix_16
from_str_radix [] = none
from_str_radix (c ∷ []) = if c == b'+' then none else radix_16 0 (c ∷ [])
from_str_radix (c ∷ d ∷ s) = if c == b'+' then radix_16 0 (d ∷ s) else radix_16 0 (c ∷ d ∷ s)

-- `w1`, `w2` and `w3` of `encode`
unfoldable pub encode_block : ℕ → ℕ → ℕ × (ℕ × ℕ)
encode_block n x =
    let w1 = x % n in let w2 = (x / n + w1) % n in let w3 = (x / n / n + w2) % n in (w1, (w2, w3))

-- `x` of `decode`
unfoldable pub decode_block : ℕ → ℕ → ℕ → ℕ → ℕ
decode_block n w1 w2 w3 = w1 + n * ((n - w1 + w2) % n) + n * n * ((n - w2 + w3) % n)

-- The first loop of `encode`, which swaps every eight characters in place.
unfoldable pub swap_chunks : Text → Result CodecError Text
swap_chunks [] = ok []
swap_chunks (a ∷ b ∷ c ∷ d ∷ e ∷ f ∷ g ∷ h ∷ rest) = do
  p2 ← swap (a ∷ b ∷ c ∷ d ∷ e ∷ f ∷ g ∷ h ∷ [])
  p3 ← swap_chunks rest
  ok (p2 ++ p3)
swap_chunks _ = err panic

-- A turn of the second loop.
unfoldable pub chunk_words : List Text → Text → Result CodecError (List Text)
unfolding encode_block from_str_radix
chunk_words word_set chunk = do
  x ← ok_or (from_str_radix chunk) panic
  let b = encode_block (length word_set) x
  word1 ← ok_or (get_elem? word_set (b.0)) panic
  word2 ← ok_or (get_elem? word_set (b.1.0)) panic
  word3 ← ok_or (get_elem? word_set (b.1.1)) panic
  ok (word1 ∷ word2 ∷ word3 ∷ [])

unfoldable pub encode_chunks : List Text → Text → Result CodecError (List Text)
encode_chunks word_set [] = ok []
encode_chunks word_set (a ∷ b ∷ c ∷ d ∷ e ∷ f ∷ g ∷ h ∷ rest) = do
  block ← chunk_words word_set (a ∷ b ∷ c ∷ d ∷ e ∷ f ∷ g ∷ h ∷ [])
  others ← encode_chunks word_set rest
  ok (block ++ others)
encode_chunks word_set _ = err panic

abbrev pub concat : List Text → Text
concat [] = []
concat (w ∷ ws) = w ++ concat ws

-- `join(" ")`
unfoldable pub join : List Text → Text
join [] = []
join (w ∷ []) = w
join (w ∷ v ∷ ws) = w ++ b' ' ∷ join (v ∷ ws)

abbrev pub is_whitespace : ℕ → Bool
is_whitespace c = c == b' ' || (leb 9 c && leb c 13)

abbrev pub add_word : Text → List Text → List Text
add_word [] ws = ws
add_word (c ∷ w) ws = (c ∷ w) ∷ ws

-- `split_whitespace`, with the word read so far
unfoldable pub split_whitespace : Text → Text → List Text
split_whitespace word [] = add_word word []
split_whitespace word (c ∷ s) =
    if is_whitespace c
    then add_word word (split_whitespace [] s)
    else split_whitespace (word ++ c ∷ []) s

module _ (checksum : List ℕ → ℕ) where
  unfoldable pub determine_checksum_index : List Text → ℕ → Result CodecError ℕ
  determine_checksum_index [] prefix_length = err panic
  determine_checksum_index (w ∷ ws) prefix_length =
      ok (checksum (concat (map (λ s. take prefix_length s) (w ∷ ws))) % length (w ∷ ws))

  unfoldable pub encode : Text → Language → Result CodecError Text
  unfolding words swap_chunks encode_chunks
  encode hex_encoded_string lang = do
    string ← swap_chunks hex_encoded_string
    result ← encode_chunks (words lang) string
    checksum_index ← determine_checksum_index result lang.prefix_length
    checksum_word ← ok_or (get_elem? result checksum_index) panic
    ok (join (result ++ checksum_word ∷ []))

-- `Iterator::position`
unfoldable pub position : Text → List Text → Option ℕ
position word [] = none
position word (w ∷ ws) =
    if text_eq w word
    then some 0
    else elim (position word ws) [ none ↦ none | some i ↦ some (suc i) ]

unfoldable pub word_index : List Text → ℕ → Text → Result CodecError ℕ
unfolding prefix_slice position
word_index word_set prefix_length word = do
  start ← prefix_slice prefix_length word
  ok_or (position start word_set) verification_fail

-- `{:x}`, on fuel: a `u64` has at most 16 digits
unfoldable pub hex_digits : ℕ → ℕ → Text → Text
hex_digits zero x rest = rest
hex_digits (suc fuel) x rest =
    let digit = if ltb (x % 16) 10 then b'0' + x % 16 else 87 + x % 16 in
    let more = hex_digits fuel (x / 16) (digit ∷ rest) in if ltb x 16 then digit ∷ rest else more

unfoldable pub block_text : ℕ → Result CodecError Text
unfolding hex_digits swap
block_text x =
    let string = codes "0000000" ++ hex_digits 16 x [] in swap (drop (length string - 8) string)

-- The end of a turn of the loop of `decode`, on the three indices.
unfoldable pub indices_text : ℕ → ℕ → ℕ → ℕ → Result CodecError Text
unfolding decode_block block_text
indices_text n w1 w2 w3 =
    if not (decode_block n w1 w2 w3 % n == w1)
    then err generic
    else block_text (decode_block n w1 w2 w3)

unfoldable pub decode_words : List Text → ℕ → List Text → Result CodecError Text
unfolding word_index indices_text
decode_words word_set prefix_length [] = ok []
decode_words word_set prefix_length (a ∷ []) = do
  w1 ← word_index word_set prefix_length a
  err panic
decode_words word_set prefix_length (a ∷ b ∷ []) = do
  w1 ← word_index word_set prefix_length a
  w2 ← word_index word_set prefix_length b
  err panic
decode_words word_set prefix_length (a ∷ b ∷ c ∷ rest) = do
  w1 ← word_index word_set prefix_length a
  w2 ← word_index word_set prefix_length b
  w3 ← word_index word_set prefix_length c
  string ← indices_text (length word_set) w1 w2 w3
  result ← decode_words word_set prefix_length rest
  ok (string ++ result)

-- `Vec::pop`, of a list by its head and rest
abbrev pub popped : Text → List Text → List Text × Text
popped w [] = ([], w)
popped w (v ∷ ws) = let (front, last) = popped v ws in (w ∷ front, last)

unfoldable pub pop : List Text → Result CodecError (List Text × Text)
pop [] = err no_checksum_word
pop (w ∷ ws) = ok (popped w ws)

module _ (checksum : List ℕ → ℕ) where
  unfoldable pub verify : ℕ → List Text → Text → Result CodecError (Unit {0})
  unfolding determine_checksum_index prefix_slice
  verify prefix_length front checksum_word = do
    checksum_index ← determine_checksum_index checksum front prefix_length
    expected ← ok_or (get_elem? front checksum_index) panic
    expected_prefix ← prefix_slice prefix_length expected
    checksum_prefix ← prefix_slice prefix_length checksum_word
    ensure (text_eq expected_prefix checksum_prefix) verification_failed

  -- `decode`, on the words of the mnemonic
  unfoldable pub decode_split : List Text → Language → Result CodecError Text
  unfolding verify pop decode_words truncated_words
  decode_split all language = do
    ensure (not (ltb (length all) 12)) input_too_short
    ensure (not (length all % 3 == 0)) missing_last_word
    last ← pop all
    result ← decode_words (truncated_words language) language.prefix_length (last.0)
    verify language.prefix_length (last.0) (last.1)
    ok result

  unfoldable pub decode : Text → Language → Result CodecError Text
  unfolding decode_split split_whitespace
  decode mnemonic language = decode_split (split_whitespace [] mnemonic) language
