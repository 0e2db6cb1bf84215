-- ===== src/Mnemonic/Chunks.antt =====
-- A hexadecimal text in blocks of eight digits: the words of each block, and their decoding.
use session_cli.Base.{
  ℕ, zero, suc, ◌*◌, ◌<◌, ◌≡◌, refl, ap, ◌∙◌, Bool, true, ◌&&◌, List, [], ◌∷◌, ◌++◌, ok, some,
  ◌>>=◌, arith, leb, ==_iff, length, get_elem?, map, length-map, take,
}
use session_cli.Base.Text.{Text}
use session_cli.NonEmpty.{get_elem?-some}
use session_cli.Mnemonic.{
  Language, words, truncated_words, swap, swap_chunks, chunk_words, encode_chunks, encode_block,
  from_str_radix, indices_text, word_index, decode_words, block_text,
}
use session_cli.Mnemonic.Blocks.{decode_block-encode_block, decode_block-mod}
use session_cli.Mnemonic.Digits.{all_hex, bound, eight_digits}
use session_cli.Mnemonic.Words.{is_word, core, IsWordList, word_index-core}

encode_block-below :
    (x : ℕ)
    → ((encode_block 1626 x).0 < 1626)
      × ((encode_block 1626 x).1.0 < 1626)
      × ((encode_block 1626 x).1.1 < 1626)
unfolding encode_block
encode_block-below x = omega arith

indices_text-block :
    (x : ℕ)
    → x < bound 8
    → indices_text 1626 (encode_block 1626 x).0 (encode_block 1626 x).1.0 (encode_block 1626 x).1.1
      ≡ block_text x
unfolding indices_text
indices_text-block x h =
    let (a, _, _) = encode_block-below x in
    let b = encode_block 1626 x in
    rw (decode_block-mod b.0 b.1.0 b.1.1 a, decode_block-encode_block x h, (==_iff b.0 b.0).1 refl)

chunk_words_lem :
    (ws : List Text) (chunk : Text) (n x : ℕ) (w1 w2 w3 : Text)
    → from_str_radix chunk ≡ some x
    → length ws ≡ n
    → get_elem? ws (encode_block n x).0 ≡ some w1
    → get_elem? ws (encode_block n x).1.0 ≡ some w2
    → get_elem? ws (encode_block n x).1.1 ≡ some w3
    → chunk_words ws chunk ≡ ok (w1 ∷ w2 ∷ w3 ∷ [])
unfolding chunk_words
chunk_words_lem ws chunk n x w1 w2 w3 r l e1 e2 e3 = rw (r, l, e1, e2, e3)

decode_words_lem :
    (set : List Text) (p : ℕ) (a b c : Text) (rest : List Text) (i1 i2 i3 : ℕ)
    → word_index set p a ≡ ok i1
    → word_index set p b ≡ ok i2
    → word_index set p c ≡ ok i3
    → decode_words set p (a ∷ b ∷ c ∷ rest) ≡ (
        indices_text (length set) i1 i2 i3 >>= λ string.
        decode_words set p rest >>= λ result. ok (string ++ result))
unfolding decode_words
decode_words_lem set p a b c rest i1 i2 i3 h1 h2 h3 = rw (h1, h2, h3)

hex_parts :
    (a b c d e f g h : ℕ) (rest : Text)
    → all_hex (a ∷ b ∷ c ∷ d ∷ e ∷ f ∷ g ∷ h ∷ rest) ≡ true
    → (all_hex (g ∷ h ∷ e ∷ f ∷ c ∷ d ∷ a ∷ b ∷ []) ≡ true) × (all_hex rest ≡ true)
hex_parts a b c d e f g h rest hex = ground (arith, hex)

module _ {lang : Language} (list : IsWordList lang) where
  unfoldable pub fits : Text → Bool
  fits w = is_word w && leb lang.prefix_length (length (core w))

  abbrev pub all_fit : List Text → Bool
  all_fit [] = true
  all_fit (w ∷ ws) = fits w && all_fit ws

  pub all_fit-append :
      (xs ys : List Text) → all_fit xs ≡ true → all_fit ys ≡ true → all_fit (xs ++ ys) ≡ true
  all_fit-append [] ys h k = k
  all_fit-append (x ∷ xs) ys h k = ground (arith, h, k, all_fit-append xs ys)

  -- The word at an index, as it is found again.
  indexed :
      (i : ℕ)
      → i < 1626
      → (w : Text) × (get_elem? (words lang) i ≡ some w)
        × (word_index (truncated_words lang) lang.prefix_length (core w) ≡ ok i)
        × (fits w ≡ true)
  unfolding fits
  indexed i h =
      let (w, e) = get_elem?-some (words lang) i (omega (arith, h, list.count)) in
      (w, e, word_index-core list i w e, ground (arith, list.plain i w e, list.long i w e))

  length-truncated : length (truncated_words lang) ≡ length (words lang)
  unfolding truncated_words
  length-truncated = length-map (words lang) (λ w. take lang.prefix_length w)

  chunk_decoded :
      (chunk : Text)
      → length chunk ≡ 8
      → all_hex chunk ≡ true
      → (w1 w2 w3 : Text) × (chunk_words (words lang) chunk ≡ ok (w1 ∷ w2 ∷ w3 ∷ []))
        × (all_fit (w1 ∷ w2 ∷ w3 ∷ []) ≡ true)
        × ((rest : List Text)
            → decode_words
                (truncated_words lang)
                lang.prefix_length
                (core w1 ∷ core w2 ∷ core w3 ∷ rest)
              ≡ (swap chunk >>= λ string.
                  decode_words (truncated_words lang) lang.prefix_length rest >>= λ result.
                  ok (string ++ result)))
  chunk_decoded chunk n h =
      let (x, r, s, t) = eight_digits chunk n h in
      let b = encode_block 1626 x in
      let (l1, l2, l3) = encode_block-below x in
      let (w1, e1, i1, f1) = indexed b.0 l1 in
      let (w2, e2, i2, f2) = indexed b.1.0 l2 in
      let (w3, e3, i3, f3) = indexed b.1.1 l3 in
      (
        w1,
        w2,
        w3,
        chunk_words_lem (words lang) chunk 1626 x w1 w2 w3 r list.count e1 e2 e3,
        ground (arith, f1, f2, f3),
        λ rest.
            decode_words_lem (truncated_words lang) lang.prefix_length (core w1) (core w2) (core w3)
              rest b.0 b.1.0 b.1.1 i1 i2 i3
            ∙ ap
                (λ r. r >>= λ string.
                  decode_words (truncated_words lang) lang.prefix_length rest >>= λ result.
                  ok (string ++ result))
                (ap (λ m. indices_text m b.0 b.1.0 b.1.1) (length-truncated ∙ list.count)
                  ∙ indices_text-block x s
                  ∙ t),
      )

  swap_eight :
      (a b c d e f g h : ℕ)
      → swap (g ∷ h ∷ e ∷ f ∷ c ∷ d ∷ a ∷ b ∷ []) ≡ ok (a ∷ b ∷ c ∷ d ∷ e ∷ f ∷ g ∷ h ∷ [])
  unfolding swap
  swap_eight a b c d e f g h = refl

  -- What becomes of a text of `k` blocks: its words, and what they are decoded to when they are split.
  pub record Decoded (k : ℕ) (s : Text) : Type 0 where
    pub swapped : Text
    pub found : List Text
    pub swap_lem : swap_chunks s ≡ ok swapped
    pub encode_lem : encode_chunks (words lang) swapped ≡ ok found
    pub size : length found ≡ 3 * k
    pub fit : all_fit found ≡ true
    pub decode_lem : decode_words (truncated_words lang) lang.prefix_length (map core found) ≡ ok s

  swap_chunks_lem :
      (a b c d e f g h : ℕ) (rest : Text) (t : Text)
      → swap_chunks rest ≡ ok t
      → swap_chunks (a ∷ b ∷ c ∷ d ∷ e ∷ f ∷ g ∷ h ∷ rest) ≡ ok (g ∷ h ∷ e ∷ f ∷ c ∷ d ∷ a ∷ b ∷ t)
  unfolding swap_chunks swap
  swap_chunks_lem a b c d e f g h rest t p = rw p

  encode_chunks_lem :
      (set : List Text) (a b c d e f g h : ℕ) (rest : Text) (block ws : List Text)
      → chunk_words set (a ∷ b ∷ c ∷ d ∷ e ∷ f ∷ g ∷ h ∷ []) ≡ ok block
      → encode_chunks set rest ≡ ok ws
      → encode_chunks set (a ∷ b ∷ c ∷ d ∷ e ∷ f ∷ g ∷ h ∷ rest) ≡ ok (block ++ ws)
  unfolding encode_chunks
  encode_chunks_lem set a b c d e f g h rest block ws p q = rw (p, q)

  block_Decoded :
      (k a b c d e f g h : ℕ) (rest : Text)
      → all_hex (g ∷ h ∷ e ∷ f ∷ c ∷ d ∷ a ∷ b ∷ []) ≡ true
      → Decoded k rest
      → Decoded (suc k) (a ∷ b ∷ c ∷ d ∷ e ∷ f ∷ g ∷ h ∷ rest)
  block_Decoded k a b c d e f g h rest hex r =
      let (w1, w2, w3, cw, cf, cd) = chunk_decoded (g ∷ h ∷ e ∷ f ∷ c ∷ d ∷ a ∷ b ∷ []) refl hex in
      record {
        swapped = g ∷ h ∷ e ∷ f ∷ c ∷ d ∷ a ∷ b ∷ r.swapped;
        found = w1 ∷ w2 ∷ w3 ∷ r.found;
        swap_lem = swap_chunks_lem a b c d e f g h rest r.swapped r.swap_lem;
        encode_lem =
            encode_chunks_lem (words lang) g h e f c d a b r.swapped (w1 ∷ w2 ∷ w3 ∷ []) r.found cw
              r.encode_lem;
        size = omega (arith, r.size);
        fit = all_fit-append (w1 ∷ w2 ∷ w3 ∷ []) r.found cf r.fit;
        decode_lem = cd (map core r.found) ∙ rw (swap_eight a b c d e f g h, r.decode_lem);
      }

  pub text_Decoded : (k : ℕ) (s : Text) → length s ≡ 8 * k → all_hex s ≡ true → Decoded k s
  unfolding swap_chunks encode_chunks decode_words
  text_Decoded zero [] n h = record {
    swapped = [];
    found = [];
    swap_lem = refl;
    encode_lem = refl;
    size = omega arith;
    fit = refl;
    decode_lem = refl;
  }
  text_Decoded (suc k) (a ∷ b ∷ c ∷ d ∷ e ∷ f ∷ g ∷ i ∷ rest) n h =
      let (block, more) = hex_parts a b c d e f g i rest h in
      block_Decoded k a b c d e f g i rest block (text_Decoded k rest (omega (arith, n)) more)
  text_Decoded k s n h = absurd (omega (arith, n))
