-- ===== src/Mnemonic/RoundTrip.antt =====
-- A hexadecimal text is decoded from its own mnemonic.
use session_cli.Base.{
  ℕ, zero, suc, ◌+◌, ◌*◌, ◌%◌, ◌<◌, ◌≤◌, ◌≡◌, refl, ap, ◌∙◌, true, List, [], ◌∷◌, ◌++◌, ok, some,
  arith, ltb, not, ◌==◌, map, length-map, length, get_elem?, length-append, take,
}
use session_cli.Base.Text.{Text}
use session_cli.NonEmpty.{get_elem?-some}
use session_cli.Mnemonic.{
  Language, truncated_words, decode_words, determine_checksum_index, encode, join, decode,
  decode_split, verify, concat,
}
use session_cli.Mnemonic.Digits.{all_hex}
use session_cli.Mnemonic.Words.{
  all_words, core, take-core, split-join, pop-snoc, IsWordList, verify-own,
}
use session_cli.Mnemonic.Chunks.{fits, all_fit, all_fit-append, text_Decoded}

mod-below : (a n : ℕ) → a % suc n < suc n
mod-below a n = grind arith

get_elem?-core :
    (ws : List Text) (i : ℕ) (w : Text)
    → get_elem? ws i ≡ some w
    → get_elem? (map core ws) i ≡ some (core w)
get_elem?-core [] i w e = ground (arith, e)
get_elem?-core (v ∷ ws) zero w e = ground (arith, e)
get_elem?-core (v ∷ ws) (suc i) w e = get_elem?-core ws i w e

map-snoc : (ws : List Text) (w : Text) → map core (ws ++ w ∷ []) ≡ map core ws ++ core w ∷ []
map-snoc [] w = refl
map-snoc (v ∷ ws) w = ap (◌∷◌ (core v)) (map-snoc ws w)

enough_words : (m k : ℕ) → m ≡ 3 * k + 1 → 4 ≤ k → not (ltb m 12) ≡ true
enough_words m k n l = ground (arith, n, l)

spare_word : (m k : ℕ) → m ≡ 3 * k + 1 → not (m % 3 == 0) ≡ true
spare_word m k n = ground (arith, n)

module _ {lang : Language} (list : IsWordList lang) where
  fits-at :
      (ws : List Text) (i : ℕ) (w : Text)
      → all_fit list ws ≡ true
      → get_elem? ws i ≡ some w
      → fits list w ≡ true
  fits-at [] i w h e = ground (arith, e)
  fits-at (x ∷ xs) zero w h e = ground (arith, h, e)
  fits-at (x ∷ xs) (suc i) w h e = fits-at xs i w (ground (arith, h)) e

  -- The checksum word is one of the words.
  checksum_word :
      (checksum : List ℕ → ℕ) (ws : List Text)
      → 0 < length ws
      → all_fit list ws ≡ true
      → (i : ℕ) × (word : Text) × (determine_checksum_index checksum ws lang.prefix_length ≡ ok i)
        × (get_elem? ws i ≡ some word)
        × (fits list word ≡ true)
  unfolding determine_checksum_index
  checksum_word checksum [] h fit = elim h [ ]
  checksum_word checksum (w ∷ ws) h fit =
      let bytes = concat (map (λ s. take lang.prefix_length s) (w ∷ ws)) in
      let i = checksum bytes % length (w ∷ ws) in
      let (word, e) = get_elem?-some (w ∷ ws) i (mod-below (checksum bytes) (length ws)) in
      (i, word, refl, e, fits-at (w ∷ ws) i word fit e)

  all_fit-words : (ws : List Text) → all_fit list ws ≡ true → all_words ws ≡ true
  unfolding fits
  all_fit-words [] h = refl
  all_fit-words (w ∷ ws) h = ground (arith, h, all_fit-words ws)

  fits-long : (w : Text) → fits list w ≡ true → lang.prefix_length ≤ length (core w)
  unfolding fits
  fits-long w h = ground (arith, h)

  -- The checksum is one of prefixes, which splitting leaves.
  prefixes-core :
      (ws : List Text)
      → all_fit list ws ≡ true
      → map (λ s. take lang.prefix_length s) (map core ws) ≡ map (λ s. take lang.prefix_length s) ws
  prefixes-core [] h = refl
  prefixes-core (w ∷ ws) h =
      let fit : fits list w ≡ true = ground (arith, h) in
      let others : all_fit list ws ≡ true = ground (arith, h) in
      rw (take-core lang.prefix_length w (fits-long w fit), prefixes-core ws others)

  determine_checksum_index-core :
      (checksum : List ℕ → ℕ) (ws : List Text)
      → all_fit list ws ≡ true
      → determine_checksum_index checksum (map core ws) lang.prefix_length
        ≡ determine_checksum_index checksum ws lang.prefix_length
  unfolding determine_checksum_index
  determine_checksum_index-core checksum [] h = refl
  determine_checksum_index-core checksum (w ∷ ws) h =
      ap
        (λ n. ok (checksum (concat (map (λ s. take lang.prefix_length s) (map core (w ∷ ws)))) % n))
        (length-map (w ∷ ws) core)
      ∙ ap (λ t. ok (checksum (concat t) % length (w ∷ ws))) (prefixes-core (w ∷ ws) h)

  -- `decode` on the words of a text and their checksum word.
  decode_split_lem :
      (checksum : List ℕ → ℕ) (k : ℕ) (s : Text) (ws : List Text) (i : ℕ) (word : Text)
      → 4 ≤ k
      → length ws ≡ 3 * k
      → decode_words (truncated_words lang) lang.prefix_length ws ≡ ok s
      → verify checksum lang.prefix_length ws word ≡ ok tt
      → decode_split checksum (ws ++ word ∷ []) lang ≡ ok s
  unfolding decode_split
  decode_split_lem checksum k s ws i word l size dec ver =
      let all = ws ++ word ∷ [] in
      let n : length all ≡ 3 * k + 1 = length-append ws (word ∷ []) ∙ omega (arith, size) in
      let enough : not (ltb (length all) 12) ≡ true = enough_words (length all) k n l in
      let spare : not (length all % 3 == 0) ≡ true = spare_word (length all) k n in
      rw (enough, spare, pop-snoc ws word, dec, ver)

  pub decode-encode :
      (checksum : List ℕ → ℕ) (k : ℕ) (s : Text)
      → 4 ≤ k
      → length s ≡ 8 * k
      → all_hex s ≡ true
      → (mnemonic : Text) × (encode checksum s lang ≡ ok mnemonic)
        × (decode checksum mnemonic lang ≡ ok s)
  unfolding encode decode
  decode-encode checksum k s l n hex =
      let r = text_Decoded list k s n hex in
      let (i, word, e, g, f) = checksum_word checksum r.found (omega (arith, r.size, l)) r.fit in
      let all = r.found ++ word ∷ [] in
      let fit : all_fit list all ≡ true =
        all_fit-append list r.found (word ∷ []) r.fit (ground (arith, f)) in
      (
        join all,
        rw (r.swap_lem, r.encode_lem, e, g),
        ap (λ t. decode_split checksum t lang)
              (split-join all (all_fit-words all fit) ∙ map-snoc r.found word)
            ∙ decode_split_lem checksum k s (map core r.found) i (core word) l
                (length-map r.found core ∙ r.size) r.decode_lem
                (verify-own checksum lang.prefix_length (map core r.found) i (core word)
                  (determine_checksum_index-core checksum r.found r.fit ∙ e)
                  (get_elem?-core r.found i word g) (fits-long word f)),
      )
