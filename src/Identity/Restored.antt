-- ===== src/Identity/Restored.antt =====
-- Identities are restored from their mnemonic and from their serialised value.
use mathlib.Core.Path.{subst}
use session_cli.Base.{
  ℕ, zero, suc, ◌-◌, ◌*◌, ◌≤◌, ◌≡◌, refl, sym, ap, ◌∙◌, List, [], ◌∷◌, ◌++◌, none, some, ok, err,
  ok_or, ◌>>=◌, arith, leb, length, length-append, length-replicate, replicate, Bool-cases,
  Option-cases, Result-cases, inl, inr, leb→le, append-nil,
}
use session_cli.Base.Text.{Text}
use session_cli.Key.{IsBytes}
use session_cli.Mnemonic.{Language, encode, decode}
use session_cli.Mnemonic.Words.{IsWordList}
use session_cli.Mnemonic.RoundTrip.{decode-encode}
use session_cli.Identity.{
  EdKeys, HexText, panic, Identity, pad_ed25519_seed, in_context, serialize, new_identity,
  deserialize, from_mnemonic, mnemonic_of,
}

IsBytes-append : (a b : List ℕ) → IsBytes a → IsBytes b → IsBytes (a ++ b)
IsBytes-append [] b ha hb = hb
IsBytes-append (x ∷ a) b ha hb = (ha.0, IsBytes-append a b ha.1 hb)

IsBytes-zeros : (n : ℕ) → IsBytes (replicate n 0)
IsBytes-zeros zero = tt
IsBytes-zeros (suc n) = (omega arith, IsBytes-zeros n)

-- A seed of the right length, and what a shorter one is padded to.
pad-whole : (s p : List ℕ) → IsBytes s → pad_ed25519_seed s ≡ some p → (length p ≡ 32) × IsBytes p
unfolding pad_ed25519_seed
pad-whole s p h e = elim (Bool-cases (leb (length s) 32)) [
  | inr b ↦ absurd (ground (arith, e, b))
  | inl b ↦
      let zeros = replicate (32 - length s) 0 in
      let same : s ++ zeros ≡ p = ground (arith, e, b) in
      (
        sym (ap length same)
            ∙ omega (
              arith,
              leb→le (length s) 32 b,
              length-append s zeros,
              length-replicate {A = ℕ} (32 - length s) 0,
            ),
        subst IsBytes same (IsBytes-append s zeros h (IsBytes-zeros (32 - length s))),
      )
]

pad-same : (s : List ℕ) → length s ≡ 32 → pad_ed25519_seed s ≡ some s
unfolding pad_ed25519_seed
pad-same s n = rw n (ap some (append-nil s))

pad-long : (s : List ℕ) → 33 ≤ length s → pad_ed25519_seed s ≡ none
unfolding pad_ed25519_seed
pad-long s n = ground (arith, n)

module _ (keys : EdKeys) (hex : HexText) (checksum : List ℕ → ℕ) {english : Language}
    (list : IsWordList english) where
  -- The identities that the operations make; the pair drawn at random is one of some seed.
  pub data Made : Identity → Type 0 where
    by_generate :
        (seed : List ℕ)
        → length seed ≡ 32
        → IsBytes seed
        → Made (new_identity keys (keys.pair_from_seed seed))
    by_mnemonic :
        (mnemonic : Text) {i : Identity}
        → from_mnemonic keys hex checksum english mnemonic ≡ ok i
        → Made i
    by_deserialize : {i : Identity} → Made i → Made (deserialize keys (serialize i))

  -- An identity that is made is one of some seed.
  Made-seed :
      {i : Identity}
      → Made i
      → (seed : List ℕ) × (length seed ≡ 32)
        × IsBytes seed
        × (new_identity keys (keys.pair_from_seed seed) ≡ i)
  unfolding from_mnemonic deserialize serialize
  Made-seed (by_generate seed n h) = (seed, n, h, refl)
  Made-seed (by_mnemonic mnemonic {i} e) =
      elim (Result-cases (in_context (decode checksum mnemonic english))) [
        | inr (x, f) ↦ absurd (ground (arith, e, f))
        | inl (text, f) ↦ elim (Option-cases (hex.decode_text text)) [
          | inl g ↦ absurd (ground (arith, e, f, g))
          | inr (seed, g) ↦ elim (Option-cases (pad_ed25519_seed seed)) [
            | inl p ↦ absurd (ground (arith, e, f, g, p))
            | inr (padded, p) ↦
                let (n, bytes) = pad-whole seed padded (hex.decode-IsBytes text seed g) p in
                (padded, n, bytes, ground (arith, e, f, g, p))
          ]
        ]
      ]
  Made-seed (by_deserialize m) =
      let (seed, n, h, e) = Made-seed m in (seed, n, h, ap (λ j. deserialize keys (serialize j)) e)

  -- What becomes of the mnemonic of some bytes, four at a time.
  from_mnemonic-bytes :
      (k : ℕ) (seed : List ℕ)
      → 4 ≤ k
      → length seed ≡ 4 * k
      → IsBytes seed
      → (text : Text) × (encode checksum (hex.encode_bytes seed) english ≡ ok text)
        × (decode checksum text english ≡ ok (hex.encode_bytes seed))
        × (from_mnemonic keys hex checksum english text ≡ (
            ok_or (pad_ed25519_seed seed) panic >>= λ padded.
            ok (new_identity keys (keys.pair_from_seed padded))))
  unfolding from_mnemonic
  from_mnemonic-bytes k seed l n h =
      let digits = hex.encode_bytes seed in
      let (text, e, d) =
        decode-encode list checksum k digits l (hex.length-encode seed ∙ omega (arith, n))
          (hex.all_hex-encode seed h) in
      (text, e, d, rw (d, hex.decode-encode seed h))

  restored-seed :
      (seed : List ℕ)
      → length seed ≡ 32
      → IsBytes seed
      → let i = new_identity keys (keys.pair_from_seed seed) in
        (text : Text) × (mnemonic_of keys hex checksum english i ≡ ok text)
        × (from_mnemonic keys hex checksum english text ≡ ok i)
        × (deserialize keys (serialize i) ≡ i)
  unfolding mnemonic_of new_identity serialize deserialize
  restored-seed seed n h =
      let (text, e, _, d) = from_mnemonic-bytes 8 seed (omega arith) n h in
      (text, rw (keys.seed_of-pair seed n) e, d ∙ rw (pad-same seed n), refl)

  -- Every identity that the operations make has a mnemonic, from which it is restored, and its
  -- serialised value is read as it; the word list has as many words as the English one, with whitespace
  -- at most at their ends, and with prefixes that differ.
  pub from_mnemonic-mnemonic_of :
      {i : Identity}
      → Made i
      → (text : Text) × (mnemonic_of keys hex checksum english i ≡ ok text)
        × (from_mnemonic keys hex checksum english text ≡ ok i)
        × (deserialize keys (serialize i) ≡ i)
  from_mnemonic-mnemonic_of m =
      let (seed, n, h, e) = Made-seed m in
      subst
        (λ i.
          (text : Text) × (mnemonic_of keys hex checksum english i ≡ ok text)
          × (from_mnemonic keys hex checksum english text ≡ ok i)
          × (deserialize keys (serialize i) ≡ i))
        e (restored-seed seed n h)

  -- The mnemonic of more than 32 bytes, a multiple of four of them, is a valid one, and restoring
  -- an identity from it panics; the word list has as many words as the English one, with whitespace at
  -- most at their ends, and with prefixes that differ.
  pub from_mnemonic_long :
      (k : ℕ) (seed : List ℕ)
      → 9 ≤ k
      → length seed ≡ 4 * k
      → IsBytes seed
      → (text : Text) × (decode checksum text english ≡ ok (hex.encode_bytes seed))
        × (from_mnemonic keys hex checksum english text ≡ err panic)
  from_mnemonic_long k seed l n h =
      let (text, _, d, e) = from_mnemonic-bytes k seed (omega (arith, l)) n h in
      (text, d, e ∙ rw (pad-long seed (omega (arith, l, n))))
