-- ===== src/Mnemonic/Example.antt =====
-- A word list that is what the development assumes of one, for the tests: as many words as the
-- English one, of three letters each, which count in twelves, and a newline at the end of the last.
use mathlib.Core.Path.{subst}
use session_cli.Base.{
  ℕ, zero, suc, ◌+◌, ◌/◌, ◌%◌, ◌<◌, ◌≤◌, ◌≡◌, refl, sym, ap, ◌∙◌, true, false, List, [], ◌∷◌, ◌++◌,
  Option, some, none, arith, map, length, take, get_elem?, ◌==◌,
}
use session_cli.Base.Text.{Text, text_eq, text_eq_refl}
use session_cli.Mnemonic.{is_whitespace, Language, words, truncated_words, split, position}
use session_cli.Mnemonic.Words.{IsWordList, is_word, core, ends_blank}

letters : ℕ → Text
letters i = (97 + i / 144) ∷ (97 + i / 12 % 12) ∷ (97 + i % 12) ∷ []

-- `n + 1` words from the one at `start`.
listed : ℕ → ℕ → List Text
listed start zero = (letters start ++ 10 ∷ []) ∷ []
listed start (suc n) = letters start ∷ listed (suc start) n

buffer : ℕ → ℕ → Text
buffer start zero = letters start ++ 10 ∷ []
buffer start (suc n) = letters start ++ b',' ∷ buffer (suc start) n

not_comma : (n : ℕ) → (97 + n == b',') ≡ false
not_comma n = ground arith

split-buffer : (start n : ℕ) → split b',' (buffer start n) ≡ listed start n
unfolding split listed buffer letters
split-buffer start zero =
    rw (not_comma (start / 144), not_comma (start / 12 % 12), not_comma (start % 12))
split-buffer start (suc n) = rw (
  not_comma (start / 144),
  not_comma (start / 12 % 12),
  not_comma (start % 12),
  split-buffer (suc start) n,
)

length-listed : (start n : ℕ) → length (listed start n) ≡ suc n
unfolding listed
length-listed start zero = refl
length-listed start (suc n) = ap suc (length-listed (suc start) n)

some_eq : {a b : Text} → some a ≡ some b → a ≡ b
some_eq e = ground (arith, e)

plus_zero : (n : ℕ) → n + 0 ≡ n
plus_zero n = omega arith

zero_plus : (n : ℕ) → 0 + n ≡ n
zero_plus n = omega arith

plus_suc : (m n : ℕ) → m + suc n ≡ suc m + n
plus_suc m n = omega arith

not_space : (n : ℕ) → is_whitespace (97 + n) ≡ false
not_space n = ground arith

-- A word of the list, with whatever ends it.
abbrev Spelled : Text → ℕ → Type 0
Spelled w i = (take 3 w ≡ letters i) × (core w ≡ letters i) × (ends_blank w ≡ true)

letters-Spelled : (w : Text) (i : ℕ) → w ≡ letters i → Spelled w i
unfolding letters
letters-Spelled w i e = rw e (
  refl,
  rw (not_space (i / 144), not_space (i / 12 % 12), not_space (i % 12)),
  rw (not_space (i / 144), not_space (i / 12 % 12), not_space (i % 12)),
)

last-Spelled : (w : Text) (i : ℕ) → w ≡ letters i ++ 10 ∷ [] → Spelled w i
unfolding letters
last-Spelled w i e = rw e (
  refl,
  rw (not_space (i / 144), not_space (i / 12 % 12), not_space (i % 12)),
  rw (not_space (i / 144), not_space (i / 12 % 12), not_space (i % 12)),
)

listed-at :
    (start n i : ℕ) (w : Text)
    → get_elem? (listed start n) i ≡ some w
    → Spelled w (start + i) × (i ≤ n)
unfolding listed
listed-at start zero zero w e =
    rw (plus_zero start) (last-Spelled w start (some_eq (sym e)), omega arith)
listed-at start zero (suc i) w e = ground (arith, e)
listed-at start (suc n) zero w e =
    rw (plus_zero start) (letters-Spelled w start (some_eq (sym e)), omega arith)
listed-at start (suc n) (suc i) w e =
    let (p, q) = listed-at (suc start) n i w e in rw (plus_suc start i) (p, omega (arith, q))

letters_ne : (i j : ℕ) → i < j → text_eq (letters i) (letters j) ≡ false
unfolding letters text_eq
letters_ne i j l = ground arith

take-letters : (i : ℕ) → take 3 (letters i) ≡ letters i
unfolding letters
take-letters i = refl

take_last : (i : ℕ) → take 3 (letters i ++ 10 ∷ []) ≡ letters i
unfolding letters
take_last i = refl

abbrev next : Option ℕ → Option ℕ
next none = none
next (some i) = some (suc i)

position-step :
    (word w : Text) (ws : List Text)
    → text_eq w word ≡ false
    → position word (w ∷ ws) ≡ next (position word ws)
unfolding position
position-step word w ws h = ground (arith, h)

position-listed :
    (start n i : ℕ)
    → i ≤ n
    → position (letters (start + i)) (map (λ w. take 3 w) (listed start n)) ≡ some i
unfolding listed position
position-listed start zero zero l =
    rw (take_last start, plus_zero start, text_eq_refl (letters start))
position-listed start zero (suc i) l = absurd (omega (arith, l))
position-listed start (suc n) zero l =
    rw (take-letters start, plus_zero start, text_eq_refl (letters start))
position-listed start (suc n) (suc i) l =
    position-step (letters (start + suc i)) (take 3 (letters start))
      (map (λ w. take 3 w) (listed (suc start) n))
      (rw (take-letters start) (letters_ne start (start + suc i) (omega arith)))
    ∙ ap next (
        ap (λ j. position (letters j) (map (λ w. take 3 w) (listed (suc start) n)))
          (plus_suc start i)
        ∙ position-listed (suc start) n i (omega (arith, l)))

pub twelves : Language
twelves = record { words_buffer = buffer 0 1625; prefix_length = 3 }

words-twelves : words twelves ≡ listed 0 1625
unfolding words twelves
words-twelves = split-buffer 0 1625

-- A word of the list is the one of its index.
word-at : (i : ℕ) (w : Text) → get_elem? (words twelves) i ≡ some w → Spelled w i × (i ≤ 1625)
word-at i w e =
    let (p, q) = listed-at 0 1625 i w (sym (ap (λ ws. get_elem? ws i) words-twelves) ∙ e) in
    (subst (Spelled w) (zero_plus i) p, q)

core-long : (w : Text) (i : ℕ) → Spelled w i → 3 ≤ length (core w)
unfolding letters
core-long w i (_, c, _) = rw c (omega arith)

Spelled-is_word : (w : Text) (i : ℕ) → Spelled w i → is_word w ≡ true
unfolding letters
Spelled-is_word w i (_, c, b) = rw (c, b)

found :
    (i : ℕ) (w : Text)
    → Spelled w i × (i ≤ 1625)
    → position (take 3 w) (map (λ v. take 3 v) (words twelves)) ≡ some i
found i w ((t, _, _), l) =
    rw (t, words-twelves, ap letters (sym (zero_plus i))) (position-listed 0 1625 i l)

pub twelves-IsWordList : IsWordList twelves
unfolding truncated_words twelves
twelves-IsWordList = record {
  count = ap length words-twelves ∙ length-listed 0 1625;
  distinct = λ i w e. found i w (word-at i w e);
  long = λ i w e. core-long w i (word-at i w e).0;
  plain = λ i w e. Spelled-is_word w i (word-at i w e).0;
}
