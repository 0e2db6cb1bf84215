-- ===== src/Mnemonic/Words.antt =====
-- The words of a mnemonic: joined and split again, taken off at the end, and found in the word list.
use session_cli.Base.{
  ℕ, ◌≡◌, ◌≤◌, refl, sym, ap, ◌∙◌, Bool, Bool-cases, inl, inr, zero, suc, map, if◌then◌else◌, true,
  false, ◌&&◌, List, [], ◌∷◌, ◌++◌, some, ok, arith, length, take, get_elem?, append-nil,
  append_assoc,
}
use session_cli.Base.Text.{Text, text_eq_refl}
use session_cli.Mnemonic.{
  Language, words, truncated_words, is_whitespace, add_word, join, split_whitespace, popped, pop,
  prefix_slice, word_index, position, determine_checksum_index, verify,
}

-- A word up to its first whitespace, which is what is split off for it.
abbrev pub core : Text → Text
core [] = []
core (c ∷ w) = if is_whitespace c then [] else c ∷ core w

abbrev pub is_blank : Text → Bool
is_blank [] = true
is_blank (c ∷ w) = is_whitespace c && is_blank w

-- Nothing but whitespace follows the first whitespace.
abbrev pub ends_blank : Text → Bool
ends_blank [] = true
ends_blank (c ∷ w) = if is_whitespace c then is_blank w else ends_blank w

abbrev pub nonempty : Text → Bool
nonempty [] = false
nonempty (c ∷ w) = true

abbrev pub is_word : Text → Bool
is_word w = nonempty (core w) && ends_blank w

abbrev pub all_words : List Text → Bool
all_words [] = true
all_words (w ∷ ws) = is_word w && all_words ws

split-blank :
    (w rest : Text) → is_blank w ≡ true → split_whitespace [] (w ++ rest) ≡ split_whitespace [] rest
unfolding split_whitespace
split-blank [] rest h = refl
split-blank (c ∷ w) rest h =
    let n : is_whitespace c ≡ true = ground (arith, h) in
    rw n (split-blank w rest (ground (arith, h)))

-- A word is read to its end, in front of a space and at the end of the text.
split-word :
    (w word rest : Text)
    → ends_blank w ≡ true
    → split_whitespace word (w ++ b' ' ∷ rest)
      ≡ add_word (word ++ core w) (split_whitespace [] rest)
unfolding split_whitespace
split-word [] word rest h = ap (λ t. add_word t (split_whitespace [] rest)) (sym (append-nil word))
split-word (c ∷ w) word rest h = elim (Bool-cases (is_whitespace c)) [
  | inl e ↦
      let blank : is_blank w ≡ true = ground (arith, h, e) in
      rw (e, split-blank w (b' ' ∷ rest) blank, append-nil word) refl
  | inr e ↦ rw e (
      split-word w (word ++ c ∷ []) rest (ground (arith, h, e))
      ∙ ap (λ t. add_word t (split_whitespace [] rest)) (append_assoc word (c ∷ []) (core w)))
]

split_last :
    (w word : Text) → ends_blank w ≡ true → split_whitespace word w ≡ add_word (word ++ core w) []
unfolding split_whitespace
split_last [] word h = ap (λ t. add_word t []) (sym (append-nil word))
split_last (c ∷ w) word h = elim (Bool-cases (is_whitespace c)) [
  | inl e ↦
      let blank : is_blank w ≡ true = ground (arith, h, e) in
      let nothing : split_whitespace [] w ≡ [] =
        ap (λ t. split_whitespace [] t) (sym (append-nil w)) ∙ split-blank w [] blank in
      rw (e, nothing, append-nil word) refl
  | inr e ↦ rw e (
      split_last w (word ++ c ∷ []) (ground (arith, h, e))
      ∙ ap (λ t. add_word t []) (append_assoc word (c ∷ []) (core w)))
]

add_nonempty : (w : Text) (ws : List Text) → nonempty w ≡ true → add_word w ws ≡ w ∷ ws
add_nonempty [] ws h = ground (arith, h)
add_nonempty (c ∷ w) ws h = refl

both_parts : (a b : Bool) → (a && b) ≡ true → (a ≡ true) × (b ≡ true)
both_parts a b h = (ground (arith, h), ground (arith, h))

pub split-join :
    (ws : List Text) → all_words ws ≡ true → split_whitespace [] (join ws) ≡ map core ws
unfolding join split_whitespace
split-join [] h = refl
split-join (w ∷ []) h =
    let (word, _) = both_parts (is_word w) true h in
    let (some_text, blank) = both_parts (nonempty (core w)) (ends_blank w) word in
    split_last w [] blank ∙ add_nonempty (core w) [] some_text
split-join (w ∷ v ∷ ws) h =
    let (word, others) = both_parts (is_word w) (all_words (v ∷ ws)) h in
    let (some_text, blank) = both_parts (nonempty (core w)) (ends_blank w) word in
    split-word w [] (join (v ∷ ws)) blank
    ∙ ap (λ t. add_word (core w) t) (split-join (v ∷ ws) others)
    ∙ add_nonempty (core w) (map core (v ∷ ws)) some_text

-- A prefix that is no longer than what is split off is the word's.
pub take-core : (n : ℕ) (w : Text) → n ≤ length (core w) → take n (core w) ≡ take n w
take-core zero w h = refl
take-core (suc n) [] h = refl
take-core (suc n) (c ∷ w) h = elim (Bool-cases (is_whitespace c)) [
  | inl e ↦
      let none_left : length (core (c ∷ w)) ≡ 0 = rw e refl in absurd (omega (arith, h, none_left))
  | inr e ↦
      let longer : length (core (c ∷ w)) ≡ suc (length (core w)) = rw e refl in
      rw e (ap (◌∷◌ c) (take-core n w (omega (arith, h, longer))))
]

popped-snoc : (w : Text) (ws : List Text) (l : Text) → popped w (ws ++ l ∷ []) ≡ (w ∷ ws, l)
popped-snoc w [] l = refl
popped-snoc w (v ∷ ws) l = rw (popped-snoc v ws l)

pub pop-snoc : (ws : List Text) (l : Text) → pop (ws ++ l ∷ []) ≡ ok (ws, l)
unfolding pop
pop-snoc [] l = refl
pop-snoc (w ∷ ws) l = ap ok (popped-snoc w ws l)

pub prefix_slice-long : (n : ℕ) (w : Text) → n ≤ length w → prefix_slice n w ≡ ok (take n w)
unfolding prefix_slice
prefix_slice-long n w h = ground (arith, h)

-- Of the language: it has as many words as the English one, each of which has a prefix of its own, of
-- the full length, and whitespace at most at its end, as the newline at the end of the file is one of
-- the last word.
pub record IsWordList (lang : Language) : Type 0 where
  pub count : length (words lang) ≡ 1626
  pub distinct :
      (i : ℕ) (w : Text)
      → get_elem? (words lang) i ≡ some w
      → position (take lang.prefix_length w) (truncated_words lang) ≡ some i
  pub long :
      (i : ℕ) (w : Text) → get_elem? (words lang) i ≡ some w → lang.prefix_length ≤ length (core w)
  pub plain : (i : ℕ) (w : Text) → get_elem? (words lang) i ≡ some w → is_word w ≡ true

module _ {lang : Language} (list : IsWordList lang) where
  pub word_index-core :
      (i : ℕ) (w : Text)
      → get_elem? (words lang) i ≡ some w
      → word_index (truncated_words lang) lang.prefix_length (core w) ≡ ok i
  unfolding word_index
  word_index-core i w e =
      let long = list.long i w e in
      rw (
        prefix_slice-long lang.prefix_length (core w) long,
        take-core lang.prefix_length w long,
        list.distinct i w e,
      )

-- The checksum word is one of the words, so its prefix is found right.
pub verify-own :
    (checksum : List ℕ → ℕ) (n : ℕ) (front : List Text) (i : ℕ) (word : Text)
    → determine_checksum_index checksum front n ≡ ok i
    → get_elem? front i ≡ some word
    → n ≤ length word
    → verify checksum n front word ≡ ok tt
unfolding verify
verify-own checksum n front i word e g l =
    rw (e, g, prefix_slice-long n word l, text_eq_refl (take n word))
