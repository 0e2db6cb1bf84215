-- ===== src/Key/Laws.antt =====
-- Keys and their text.
use mathlib.Core.Path.{subst}
use session_cli.Base.{ℕ, ◌≡◌, List, some, ok, length, arith, Option-cases, inl, inr}
use session_cli.Base.Text.{Text}
use session_cli.Key.{IsBytes, HexCodec, Key, from_binary, from_hex, hex_text}

module _ (codec : HexCodec) where
  -- A key that was read from a text shows that text, and has the length that was asked for.
  pub hex-from_hex :
      (len : ℕ) (s : Text) (k : Key)
      → from_hex codec len s ≡ ok k
      → (hex_text codec k ≡ s) × (length k.binary ≡ len) × IsBytes k.binary
  unfolding from_hex hex_text
  hex-from_hex len s k h = elim (Option-cases (codec.decode_to_slice s len)) [
    | inl e ↦ ground arith
    | inr (b, e) ↦
        let n = codec.length-decode s len b e in
        let bytes = codec.decode-IsBytes s len b e in
        let same : b ≡ k.binary = ground arith in
        (ground arith, ground arith, subst IsBytes same bytes)
  ]

  -- The text of a key is read back as an equal key.
  pub from_hex-hex :
      (b : List ℕ)
      → IsBytes b
      → from_hex codec (length b) (hex_text codec (from_binary b))
        ≡ ok (record { binary = b; hex = some (codec.encode b) })
  unfolding from_hex hex_text
  from_hex-hex b h = rw (codec.decode-encode b h)
