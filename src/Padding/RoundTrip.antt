-- ===== src/Padding/RoundTrip.antt =====
-- What padding adds, and that stripping takes exactly that away.
use session_cli.Base.{
  ℕ, zero, suc, ◌+◌, ◌-◌, ◌%◌, ◌≤◌, ◌<◌, false, inl, inr, Option-cases, Bool-cases, ◌==◌, List, [],
  ◌∷◌, ◌++◌, ◌≡◌, refl, sym, ap, ◌∙◌, leb, ◌⊎◌, none, some, arith, length, get_or, take, replicate,
  length-append, length-replicate, append_assoc,
}
use session_cli.Padding.{rposition, resize, marks, strip_message_padding, pad_message}

rposition-zeros : (k : ℕ) → rposition marks (replicate k 0) ≡ none
unfolding rposition
rposition-zeros zero = refl
rposition-zeros (suc k) = rw (rposition-zeros k)

rposition-padded :
    (d : List ℕ) (k : ℕ) → rposition marks (d ++ 0x80 ∷ replicate k 0) ≡ some (length d)
unfolding rposition
rposition-padded [] k = rw (rposition-zeros k, rposition)
rposition-padded (x ∷ d) k = rw (rposition-padded d k, rposition)

get_or-append : (d r : List ℕ) (x : ℕ) → get_or (d ++ x ∷ r) (length d) 0 ≡ x
get_or-append [] r x = refl
get_or-append (y ∷ d) r x = get_or-append d r x

take-append : (d r : List ℕ) → take (length d) (d ++ r) ≡ d
take-append [] r = refl
take-append (y ∷ d) r = ap (◌∷◌ y) (take-append d r)

-- Stripping removes the last 0x80 byte and the zero bytes behind it.
pub strip-append : (d : List ℕ) (k : ℕ) → strip_message_padding (d ++ 0x80 ∷ replicate k 0) ≡ d
unfolding strip_message_padding
strip-append d k =
    rw (rposition-padded d k)
      (rw (get_or-append d (replicate k 0) 0x80) (take-append d (0x80 ∷ replicate k 0)))

resize-grow : (v : List ℕ) (k : ℕ) → 0 < k → resize v (length v + k) 0 ≡ v ++ replicate k 0
unfolding resize
resize-grow v k h =
    let grows : leb (length v + k) (length v) ≡ false = ground arith in
    let room : length v + k - length v ≡ k = omega arith in rw grows (rw room refl)

-- Padding appends one 0x80 byte and then zeros, always at least one.
pub pad_lem : (d : List ℕ) → pad_message d ≡ d ++ 0x80 ∷ replicate (160 - (length d + 1) % 160) 0
unfolding pad_message
pad_lem d =
    let size : length (d ++ 0x80 ∷ []) ≡ length d + 1 =
      omega (arith, length-append d (0x80 ∷ [])) in
    resize-grow (d ++ 0x80 ∷ []) (160 - length (d ++ 0x80 ∷ []) % 160) (omega arith)
    ∙ rw size (rw append_assoc)

-- A padded message is stripped back to the message, whatever its bytes are.
pub strip-pad : (d : List ℕ) → strip_message_padding (pad_message d) ≡ d
strip-pad d = rw pad_lem (strip-append d (160 - (length d + 1) % 160))

-- The padded length is a multiple of 160, and exceeds the length of the message by 2 to 161 bytes.
pub length-pad :
    (d : List ℕ)
    → (length (pad_message d) % 160 ≡ 0)
      × (length d + 2 ≤ length (pad_message d))
      × (length (pad_message d) ≤ length d + 161)
length-pad d =
    let size = ap length (pad_lem d) in
    let parts = length-append d (0x80 ∷ replicate (160 - (length d + 1) % 160) 0) in
    let zeros = length-replicate {A = ℕ} (160 - (length d + 1) % 160) 0 in
    omega (arith, size, parts, zeros)

-- Two messages with one padded form are equal.
pub pad-injective : (d e : List ℕ) → pad_message d ≡ pad_message e → d ≡ e
pad-injective d e h = sym (strip-pad d) ∙ ap strip_message_padding h ∙ strip-pad e

marks_zero : (x : ℕ) → marks x ≡ false → x ≡ 0
marks_zero x h = ground arith

no_marks : (d : List ℕ) → rposition marks d ≡ none → d ≡ replicate (length d) 0
unfolding rposition
no_marks [] h = refl
no_marks (x ∷ d) h = elim (Option-cases (rposition marks d)) [
  | inl e ↦ ground (arith, no_marks d e)
  | inr (i, e) ↦ ground arith
]

last_mark :
    (d : List ℕ) (i : ℕ)
    → rposition marks d ≡ some i
    → (k : ℕ) × (d ≡ take i d ++ get_or d i 0 ∷ replicate k 0)
unfolding rposition
last_mark [] i h = cc
last_mark (x ∷ d) i h = elim (Option-cases (rposition marks d)) [
  | inl e ↦ (length d, ground (arith, no_marks d e))
  | inr (j, e) ↦ let (k, p) = last_mark d j e in (k, ground arith)
]

-- Stripping leaves its input as it is, or takes away exactly one 0x80 byte and the zeros behind it.
pub strip_lem :
    (d : List ℕ)
    → (strip_message_padding d ≡ d)
      ⊎ ((k : ℕ) × (d ≡ strip_message_padding d ++ 0x80 ∷ replicate k 0))
unfolding strip_message_padding
strip_lem d = elim (Option-cases (rposition marks d)) [
  | inl e ↦ inl (rw e)
  | inr (i, e) ↦ elim (Bool-cases (get_or d i 0 == 0x80)) [
    | inl m ↦ let (k, p) = last_mark d i e in inr (k, rw e (rw m (p ∙ ground arith)))
    | inr m ↦ inl (rw e (rw m))
  ]
]
