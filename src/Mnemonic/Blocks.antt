-- ===== src/Mnemonic/Blocks.antt =====
-- The arithmetic of three words, for the English word list: 1626 words.
use mathlib.Core.Path.{subst}
use session_cli.Base.{
  ℕ, ◌%◌, ◌^◌, ◌<◌, ◌≡◌, ◌≢◌, ◌∙◌, Bool, true, false, List, [], ◌∷◌, some, Result, ok, err, arith,
  Bool-cases, Option-cases, Result-cases, inl, inr, not, ltb, ◌==◌, ensure, ◌>>=◌, ◌>>◌, length,
  length-map, take,
}
use session_cli.Base.Text.{Text, text_eq}
use session_cli.Mnemonic.{
  CodecError, generic, input_too_short, missing_last_word, encode_block, decode_block, position,
  indices_text, block_text, swap, word_index, prefix_slice, decode_words, verify,
  determine_checksum_index, decode, decode_split, truncated_words, words, pop, Language,
  split_whitespace,
}

-- The three words of a block of 32 bits are decoded to the block.
pub decode_block-encode_block :
    (x : ℕ)
    → x < 2 ^ 32
    → decode_block 1626
        ((encode_block 1626 x).0)
        ((encode_block 1626 x).1.0)
        ((encode_block 1626 x).1.1)
      ≡ x
unfolding decode_block encode_block
decode_block-encode_block x h = omega arith

pub decode_block-mod : (w1 w2 w3 : ℕ) → w1 < 1626 → decode_block 1626 w1 w2 w3 % 1626 ≡ w1
unfolding decode_block
decode_block-mod w1 w2 w3 h = omega arith

-- The index of a word is one of the word list.
pub position-bound :
    (word : Text) (ws : List Text) (i : ℕ) → position word ws ≡ some i → i < length ws
unfolding position
position-bound word [] i h = ground arith
position-bound word (w ∷ ws) i h = elim (Bool-cases (text_eq w word)) [
  | inl e ↦ ground arith
  | inr e ↦ elim (Option-cases (position word ws)) [
    | inl f ↦ ground arith
    | inr (j, f) ↦ ground (arith, position-bound word ws j f)
  ]
]

word_index-bound :
    (ws : List Text) (n : ℕ) (word : Text) (i : ℕ) → word_index ws n word ≡ ok i → i < length ws
unfolding word_index
word_index-bound ws n word i h = elim (Result-cases (prefix_slice n word)) [
  | inr (x, e) ↦ ground arith
  | inl (start, e) ↦ ground (arith, position-bound start ws i)
]

word_index-generic : (ws : List Text) (n : ℕ) (word : Text) → word_index ws n word ≢ err generic
unfolding word_index prefix_slice
word_index-generic ws n word h = ground arith

swap-generic : (s : Text) → swap s ≢ err generic
unfolding swap
swap-generic ([]) h = ground arith
swap-generic (a ∷ []) h = ground arith
swap-generic (a ∷ b ∷ []) h = ground arith
swap-generic (a ∷ b ∷ c ∷ []) h = ground arith
swap-generic (a ∷ b ∷ c ∷ d ∷ []) h = ground arith
swap-generic (a ∷ b ∷ c ∷ d ∷ e ∷ []) h = ground arith
swap-generic (a ∷ b ∷ c ∷ d ∷ e ∷ f ∷ []) h = ground arith
swap-generic (a ∷ b ∷ c ∷ d ∷ e ∷ f ∷ g ∷ []) h = ground arith
swap-generic (a ∷ b ∷ c ∷ d ∷ e ∷ f ∷ g ∷ x ∷ s) h = ground arith

block_text-generic : (x : ℕ) → block_text x ≢ err generic
unfolding block_text
block_text-generic x h = swap-generic _ h

indices_text-generic : (w1 w2 w3 : ℕ) → w1 < 1626 → indices_text 1626 w1 w2 w3 ≢ err generic
unfolding indices_text
indices_text-generic w1 w2 w3 h e =
    block_text-generic (decode_block 1626 w1 w2 w3) (ground (arith, decode_block-mod w1 w2 w3 h))

decode_words-generic :
    (ws : List Text) (n : ℕ) (front : List Text)
    → length ws ≡ 1626
    → decode_words ws n front ≢ err generic
unfolding decode_words
decode_words-generic ws n [] e h = ground arith
decode_words-generic ws n (a ∷ []) e h = ground (arith, word_index-generic ws n a)
decode_words-generic ws n (a ∷ b ∷ []) e h =
    ground (arith, word_index-generic ws n a, word_index-generic ws n b)
decode_words-generic ws n (a ∷ b ∷ c ∷ rest) e h = elim (Result-cases (word_index ws n a)) [
  | inr (x, ea) ↦ word_index-generic ws n a (ground arith)
  | inl (w1, ea) ↦ elim (Result-cases (word_index ws n b)) [
    | inr (x, eb) ↦ word_index-generic ws n b (ground arith)
    | inl (w2, eb) ↦ elim (Result-cases (word_index ws n c)) [
      | inr (x, ec) ↦ word_index-generic ws n c (ground arith)
      | inl (w3, ec) ↦ elim (Result-cases (indices_text (length ws) w1 w2 w3)) [
        | inr (x, ei) ↦
            let bound = word_index-bound ws n a w1 ea in
            indices_text-generic w1 w2 w3 (omega (arith, e, bound))
              (subst (λ m. indices_text m w1 w2 w3 ≡ err generic) e (ground arith))
        | inl (s, ei) ↦ decode_words-generic ws n rest e (ground arith)
      ]
    ]
  ]
]

verify-generic :
    (checksum : List ℕ → ℕ) (n : ℕ) (front : List Text) (word : Text)
    → verify checksum n front word ≢ err generic
unfolding verify determine_checksum_index prefix_slice
verify-generic checksum n [] word h = ground arith
verify-generic checksum n (w ∷ ws) word h = ground arith

bind-generic :
    {A B : Type 0} (r : Result CodecError A) (f : A → Result CodecError B)
    → r ≢ err generic
    → ((a : A) → f a ≢ err generic)
    → (r >>= f) ≢ err generic
bind-generic (ok a) f hr hf h = hf a h
bind-generic (err e) f hr hf h = hr (ground arith)

then-generic :
    {B : Type 0} (r : Result CodecError (Unit {0})) (s : Result CodecError B)
    → r ≢ err generic
    → s ≢ err generic
    → (r >> s) ≢ err generic
then-generic r s hr hs = bind-generic r (λ _. s) hr (λ _. hs)

ensure-generic : (b : Bool) (e : CodecError) → e ≢ generic → ensure b e ≢ err generic
ensure-generic true e n h = ground arith
ensure-generic false e n h = n (ground arith)

pop-generic : (all : List Text) → pop all ≢ err generic
unfolding pop
pop-generic [] h = ground arith
pop-generic (w ∷ ws) h = ground arith

decode_split-generic :
    (checksum : List ℕ → ℕ) (all : List Text) (language : Language)
    → length (truncated_words language) ≡ 1626
    → decode_split checksum all language ≢ err generic
unfolding decode_split
decode_split-generic checksum all language n =
    then-generic _ _
      (ensure-generic (not (ltb (length all) 12)) input_too_short (λ e. ground arith))
      (then-generic _ _
        (ensure-generic (not (length all % 3 == 0)) missing_last_word (λ e. ground arith))
        (bind-generic (pop all) _ (pop-generic all) (λ last.
          bind-generic (decode_words (truncated_words language) language.prefix_length (last.0)) _
            (decode_words-generic (truncated_words language) language.prefix_length (last.0) n)
            (λ result.
              then-generic (verify checksum language.prefix_length (last.0) (last.1)) _
                (verify-generic checksum language.prefix_length (last.0) (last.1))
                (λ e. ground arith)))))

-- With a list of as many words as the English one, no mnemonic makes the last test of a block fail:
-- the error of that test is never the result, whatever the checksum function.
pub decode-generic :
    (checksum : List ℕ → ℕ) (mnemonic : Text) (language : Language)
    → length (words language) ≡ 1626
    → decode checksum mnemonic language ≢ err generic
unfolding decode truncated_words
decode-generic checksum mnemonic language n h =
    let size : length (truncated_words language) ≡ 1626 =
      length-map (words language) (λ w. take language.prefix_length w) ∙ n in
    decode_split-generic checksum (split_whitespace [] mnemonic) language size h
