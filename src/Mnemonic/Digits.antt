-- ===== src/Mnemonic/Digits.antt =====
-- The hexadecimal digits of a block: what `from_str_radix` reads is what `{:x}` writes.
use session_cli.Base.{
  ℕ, zero, suc, ◌+◌, ◌-◌, ◌*◌, ◌/◌, ◌%◌, ◌<◌, ◌≤◌, ◌≡◌, refl, sym, ap, ◌∙◌, Bool, true, false, ◌&&◌,
  ◌||◌, List, [], ◌∷◌, ◌++◌, some, arith, Bool-cases, inl, inr, leb, ltb, length, append-nil,
  length-append, length-replicate, drop, replicate, if◌then◌else◌,
}
use session_cli.Base.Text.{Text}
use session_cli.Mnemonic.{hex_value, radix_16, from_str_radix, hex_digits, block_text, swap}

-- What the crate hex writes.
unfoldable pub is_hex : ℕ → Bool
is_hex c = (leb b'0' c && leb c b'9') || (leb b'a' c && leb c b'f')

abbrev pub all_hex : Text → Bool
all_hex [] = true
all_hex (c ∷ s) = is_hex c && all_hex s

abbrev digit : ℕ → ℕ
digit v = if ltb v 10 then b'0' + v else 87 + v

-- The last `k` digits of a number, with zeros in front.
abbrev low : ℕ → ℕ → Text → Text
low zero x rest = rest
low (suc k) x rest = low k (x / 16) (digit (x % 16) ∷ rest)

abbrev divided : ℕ → ℕ → ℕ
divided zero x = x
divided (suc k) x = divided k (x / 16)

abbrev pub bound : ℕ → ℕ
bound zero = 1
bound (suc k) = 16 * bound k

divided-bound : (k x : ℕ) → divided k x ≡ 0 → x < bound k
divided-bound zero x h = omega (arith, h)
divided-bound (suc k) x h = omega (arith, divided-bound k (x / 16) h)

low-suc : (k x : ℕ) (rest : Text) → low (suc k) x rest ≡ digit (divided k x % 16) ∷ low k x rest
low-suc zero x rest = refl
low-suc (suc k) x rest = low-suc k (x / 16) (digit (x % 16) ∷ rest)

divided-suc : (k x : ℕ) → divided (suc k) x ≡ divided k x / 16
divided-suc zero x = refl
divided-suc (suc k) x = divided-suc k (x / 16)

hex_value-digit :
    (c : ℕ) → is_hex c ≡ true → (v : ℕ) × (hex_value c ≡ some v) × (v < 16) × (digit v ≡ c)
unfolding hex_value is_hex
hex_value-digit c h = elim (Bool-cases (leb c b'9')) [
  | inl e ↦ (c - b'0', ground arith, ground arith, ground arith)
  | inr e ↦ (c - 87, ground arith, ground arith, ground arith)
]

-- A text of digits is read, and its digits are those of the number.
radix_16-low :
    (n : ℕ) (s rest : Text)
    → all_hex s ≡ true
    → (x : ℕ) × (radix_16 n s ≡ some x)
      × (low (length s) x rest ≡ s ++ rest)
      × (divided (length s) x ≡ n)
unfolding radix_16
radix_16-low n [] rest h = (n, refl, refl, refl)
radix_16-low n (c ∷ s) rest h =
    let (v, e, l, d) = hex_value-digit c (ground (arith, h)) in
    let (x, r, p, q) = radix_16-low (16 * n + v) s rest (ground (arith, h)) in
    (
      x,
      rw (e, radix_16) r,
      low-suc (length s) x rest ∙ rw (q, p) (ap (λ y. y ∷ s ++ rest) (ground (arith, d, l))),
      divided-suc (length s) x ∙ omega (arith, q, l),
    )

length-low : (k x : ℕ) (rest : Text) → length (low k x rest) ≡ k + length rest
length-low zero x rest = omega arith
length-low (suc k) x rest = omega (arith, length-low k (x / 16) (digit (x % 16) ∷ rest))

zeros-snoc :
    (k : ℕ) (rest : Text) → replicate k b'0' ++ b'0' ∷ rest ≡ b'0' ∷ replicate k b'0' ++ rest
zeros-snoc zero rest = refl
zeros-snoc (suc k) rest = rw (zeros-snoc k rest)

low_zero : (k : ℕ) (rest : Text) → low k 0 rest ≡ replicate k b'0' ++ rest
low_zero zero rest = refl
low_zero (suc k) rest = low_zero k (b'0' ∷ rest) ∙ zeros-snoc k rest

div-zero : (x : ℕ) → ltb x 16 ≡ true → x / 16 ≡ 0
div-zero x e = ground (arith, e)

hex_digits-small :
    (fuel x : ℕ) (rest : Text)
    → ltb x 16 ≡ true
    → hex_digits (suc fuel) x rest ≡ digit (x % 16) ∷ rest
unfolding hex_digits
hex_digits-small fuel x rest e = rw (hex_digits, e)

hex_digits-large :
    (fuel x : ℕ) (rest : Text)
    → ltb x 16 ≡ false
    → hex_digits (suc fuel) x rest ≡ hex_digits fuel (x / 16) (digit (x % 16) ∷ rest)
unfolding hex_digits
hex_digits-large fuel x rest e = rw (hex_digits, e)

-- The digits written are the last `k`, but for zeros in front.
low-hex_digits :
    (k fuel x : ℕ) (rest : Text)
    → x < bound (suc k)
    → k < fuel
    → (j : ℕ) × (j ≤ k) × (low (suc k) x rest ≡ replicate j b'0' ++ hex_digits fuel x rest)
low-hex_digits zero zero x rest h f = elim f [ ]
low-hex_digits (suc k) zero x rest h f = elim f [ ]
low-hex_digits zero (suc fuel) x rest h f =
    (0, omega arith, sym (hex_digits-small fuel x rest (ground (arith, h))))
low-hex_digits (suc k) (suc fuel) x rest h f = elim (Bool-cases (ltb x 16)) [
  | inl e ↦ (
    suc k,
    omega arith,
    ap (λ y. low (suc k) y (digit (x % 16) ∷ rest)) (div-zero x e)
        ∙ low_zero (suc k) (digit (x % 16) ∷ rest)
        ∙ ap (λ y. replicate (suc k) b'0' ++ y) (sym (hex_digits-small fuel x rest e)),
  )
  | inr e ↦
      let next = digit (x % 16) ∷ rest in
      let (j, l, p) = low-hex_digits k fuel (x / 16) next (omega (arith, h)) (omega (arith, f)) in
      (
        j,
        omega (arith, l),
        p ∙ ap (λ y. replicate j b'0' ++ y) (sym (hex_digits-large fuel x rest e)),
      )
]

drop-append {ℓ} : {A : Type ℓ} (n : ℕ) (xs ys : List A) → length xs ≡ n → drop n (xs ++ ys) ≡ ys
drop-append zero [] ys h = refl
drop-append zero (x ∷ xs) ys h = ground (arith, h)
drop-append (suc n) [] ys h = ground (arith, h)
drop-append (suc n) (x ∷ xs) ys h = drop-append n xs ys (ground (arith, h))

zero-add : (n : ℕ) → 0 + n ≡ n
zero-add n = omega arith

suc-add : (m n : ℕ) → suc m + n ≡ suc (m + n)
suc-add m n = omega arith

replicate-add {ℓ} :
    {A : Type ℓ} (m n : ℕ) (a : A) (rest : List A)
    → replicate (m + n) a ++ rest ≡ replicate m a ++ (replicate n a ++ rest)
replicate-add zero n a rest = ap (λ y. replicate y a ++ rest) (zero-add n)
replicate-add (suc m) n a rest =
    ap (λ y. replicate y a ++ rest) (suc-add m n) ∙ ap (λ y. a ∷ y) (replicate-add m n a rest)

abbrev zeros : ℕ → Text
zeros n = replicate n b'0'

parts : (j : ℕ) → j ≤ 7 → 7 ≡ (7 - j) + j
parts j l = omega (arith, l)

padded :
    (j : ℕ) (hex : Text)
    → j ≤ 7
    → length (zeros j ++ hex) ≡ 8
    → drop (length (zeros 7 ++ hex) - 8) (zeros 7 ++ hex) ≡ zeros j ++ hex
padded j hex l h =
    let split : zeros 7 ++ hex ≡ zeros (7 - j) ++ (zeros j ++ hex) =
      ap (λ m. zeros m ++ hex) (parts j l) ∙ replicate-add (7 - j) j b'0' hex in
    let size : length (zeros 7 ++ hex) - 8 ≡ 7 - j =
      omega (arith, h, l, length-append (zeros j) hex, length-replicate {A = ℕ} j b'0') in
    ap (λ m. drop m (zeros 7 ++ hex)) size
    ∙ ap (λ t. drop (7 - j) t) split
    ∙ drop-append (7 - j) (zeros (7 - j)) (zeros j ++ hex) (length-replicate (7 - j) b'0')

-- `&string[string.len() - 8..]` of the digits with seven zeros in front
last_eight :
    (x : ℕ)
    → x < bound 8
    → drop (length (zeros 7 ++ hex_digits 16 x []) - 8) (zeros 7 ++ hex_digits 16 x []) ≡ low 8 x []
last_eight x h =
    let (j, l, p) = low-hex_digits 7 16 x [] h (omega arith) in
    padded j (hex_digits 16 x []) l (sym (ap length p) ∙ length-low 8 x []) ∙ sym p

block_text-low : (x : ℕ) → x < bound 8 → block_text x ≡ swap (low 8 x [])
unfolding block_text
block_text-low x h = ap swap (last_eight x h)

from_str_radix-radix :
    (chunk : Text)
    → length chunk ≡ 8
    → all_hex chunk ≡ true
    → from_str_radix chunk ≡ radix_16 0 chunk
unfolding from_str_radix is_hex
from_str_radix-radix [] n h = ground (arith, n)
from_str_radix-radix (c ∷ []) n h = ground (arith, n)
from_str_radix-radix (c ∷ d ∷ s) n h = ground (arith, h)

-- Eight digits are read as a number below 2 ^ 32, whose text is theirs, the bytes swapped.
pub eight_digits :
    (chunk : Text)
    → length chunk ≡ 8
    → all_hex chunk ≡ true
    → (x : ℕ) × (from_str_radix chunk ≡ some x) × (x < bound 8) × (block_text x ≡ swap chunk)
eight_digits chunk n h =
    let (x, r, p, q) = radix_16-low 0 chunk [] h in
    let small : x < bound 8 = divided-bound 8 x (ap (λ k. divided k x) (sym n) ∙ q) in
    let text : low 8 x [] ≡ chunk = ap (λ k. low k x []) (sym n) ∙ p ∙ append-nil chunk in
    (x, from_str_radix-radix chunk n h ∙ r, small, block_text-low x small ∙ ap swap text)
