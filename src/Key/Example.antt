-- ===== src/Key/Example.antt =====
-- A hexadecimal codec that fulfils what the development assumes of the crate `hex`, for the tests.
use mathlib.Core.Path.{subst}
use session_cli.Base.{
  Bool-cases, ℕ, ◌+◌, ◌-◌, ◌*◌, ◌<◌, ◌≡◌, refl, List, [], ◌∷◌, Option, none, some, arith, ltb, ◌==◌,
  length, if◌then◌else◌, ◌/◌, ◌%◌, Option-cases, inl, inr, ap,
}
use session_cli.Base.Text.{Text}
use session_cli.Key.{IsBytes, HexCodec}

abbrev digit : ℕ → ℕ
digit n = if ltb n 10 then 48 + n else 87 + n

abbrev value : ℕ → Option ℕ
value c =
    if ltb c 48
    then none
    else if ltb c 58
    then some (c - 48)
    else if ltb c 97
    then none
    else if ltb c 103
    then some (c - 87)
    else none

abbrev encode : List ℕ → Text
encode [] = []
encode (x ∷ xs) = digit (x / 16) ∷ digit (x % 16) ∷ encode xs

abbrev join : Option ℕ → Option ℕ → Option (List ℕ) → Option (List ℕ)
join (some h) (some l) (some rest) = some ((16 * h + l) ∷ rest)
join _ _ _ = none

abbrev decode : Text → Option (List ℕ)
decode [] = some []
decode (a ∷ []) = none
decode (a ∷ b ∷ s) = join (value a) (value b) (decode s)

abbrev sized : ℕ → Option (List ℕ) → Option (List ℕ)
sized n none = none
sized n (some b) = if length b == n then some b else none

value-digit : (n : ℕ) → n < 16 → value (digit n) ≡ some n
value-digit n h = ground arith

value-bound : (c v : ℕ) → value c ≡ some v → v < 16
value-bound c v h = ground arith

pub decode-encode : (b : List ℕ) → IsBytes b → decode (encode b) ≡ some b
decode-encode [] h = refl
decode-encode (x ∷ xs) (h, hs) =
    rw (value-digit (x / 16) (omega arith), value-digit (x % 16) (omega arith), decode-encode xs hs)
      (ap (λ y. some (y ∷ xs)) (omega arith))

join-IsBytes :
    (a c : ℕ) (r : Option (List ℕ))
    → ((bs : List ℕ) → r ≡ some bs → IsBytes bs)
    → (b : List ℕ) → join (value a) (value c) r ≡ some b
    → IsBytes b
join-IsBytes a c r bytes b h = elim (Option-cases (value a)) [
  | inl e ↦ ground arith
  | inr (v, e) ↦ elim (Option-cases (value c)) [
    | inl f ↦ ground arith
    | inr (w, f) ↦ elim (Option-cases r) [
      | inl g ↦ ground arith
      | inr (bs, g) ↦
          let same : (16 * v + w) ∷ bs ≡ b = ground arith in
          let high = value-bound a v e in
          let low = value-bound c w f in subst IsBytes same (omega (arith, high, low), bytes bs g)
    ]
  ]
]

pub decode-IsBytes : (s : Text) (b : List ℕ) → decode s ≡ some b → IsBytes b
decode-IsBytes [] b h = let e : [] ≡ b = ground arith in subst IsBytes e tt
decode-IsBytes (x ∷ []) b h = ground arith
decode-IsBytes (x ∷ y ∷ s) b h = join-IsBytes x y (decode s) (decode-IsBytes s) b h

pub sized-length :
    (n : ℕ) (r : Option (List ℕ)) (b : List ℕ) → sized n r ≡ some b → (length b ≡ n) × (r ≡ some b)
sized-length n none b h = ground arith
sized-length n (some c) b h = elim (Bool-cases (length c == n)) [
  | inl p ↦ (ground arith, ground arith)
  | inr q ↦ ground arith
]

pub sized-decode : (b : List ℕ) → sized (length b) (some b) ≡ some b
sized-decode b = ground arith

unfoldable pub hex_codec : HexCodec
hex_codec = record {
  encode = encode;
  decode_to_slice = λ s n. sized n (decode s);
  decode-encode = λ b h. rw (decode-encode b h) (sized-decode b);
  length-decode = λ s n b h. (sized-length n (decode s) b h).0;
  decode-IsBytes = λ s n b h. decode-IsBytes s b ((sized-length n (decode s) b h).1);
}

join-length :
    (a c : Option ℕ) (r : Option (List ℕ)) (b : List ℕ)
    → join a c r ≡ some b
    → (rest : List ℕ) × ((r ≡ some rest) × (length b ≡ 1 + length rest))
join-length (some v) (some w) (some rest) b h = (rest, (refl, ground (arith, h)))
join-length none c r b h = ground (arith, h)
join-length (some v) none r b h = ground (arith, h)
join-length (some v) (some w) none b h = ground (arith, h)

length-decode : (s : Text) (b : List ℕ) → decode s ≡ some b → length s ≡ length b + length b
length-decode [] b h = ground (arith, h)
length-decode (x ∷ []) b h = ground (arith, h)
length-decode (x ∷ y ∷ s) b h =
    let (rest, (e, n)) = join-length (value x) (value y) (decode s) b h in
    omega (arith, length-decode s rest e, n)

-- A text that fills a buffer has twice its length.
pub length-hex_codec :
    (s : Text) (n : ℕ) (b : List ℕ) → hex_codec.decode_to_slice s n ≡ some b → length s ≡ n + n
unfolding hex_codec
length-hex_codec s n b h =
    let (size, e) = sized-length n (decode s) b h in omega (arith, length-decode s b e, size)
