-- ===== src/HttpCache/Rows.antt =====
-- Finding and replacing rows of the cache.
use session_cli.Base.{ℕ, ◌≡◌, refl, true, List, [], ◌∷◌, none, some, arith, Option-cases, inl, inr}
use session_cli.Base.Text.{
  Text, eq_ignore_ascii_case, to_ascii_lowercase, eq_ignore_ascii_case_symm,
}
use session_cli.HttpCache.{
  CacheRow, HeaderCodec, find_row, replace_row, text_headers, build_headers,
}

pub same_case_trans :
    (s t u : Text)
    → eq_ignore_ascii_case s t ≡ true
    → eq_ignore_ascii_case t u ≡ true
    → eq_ignore_ascii_case s u ≡ true
unfolding eq_ignore_ascii_case to_ascii_lowercase
same_case_trans [] [] u h k = k
same_case_trans (x ∷ s) (y ∷ t) (z ∷ u) h k = ground (arith, same_case_trans s t u)
same_case_trans (x ∷ s) (y ∷ t) [] h k = k
same_case_trans [] (y ∷ t) u h k = ground arith
same_case_trans (x ∷ s) [] u h k = ground arith

pub find_row-none :
    (u v : Text) (rows : List CacheRow)
    → eq_ignore_ascii_case u v ≡ true
    → find_row u rows ≡ none
    → find_row v rows ≡ none
unfolding find_row
find_row-none u v [] h n = refl
find_row-none u v (r ∷ rows) h n =
    ground
      (arith, find_row-none u v rows h, same_case_trans r.url v u, eq_ignore_ascii_case_symm u v)

-- A saved row is found under every url that differs in case only, where no other row is.
pub find_row-replace_row :
    (r : CacheRow) (u : Text) (rows : List CacheRow)
    → eq_ignore_ascii_case r.url u ≡ true
    → find_row u rows ≡ none
    → find_row u (replace_row r rows) ≡ some r
unfolding find_row replace_row
find_row-replace_row r u [] h n = ground arith
find_row-replace_row r u (x ∷ rows) h n = ground (arith, find_row-replace_row r u rows h)

module _ (codec : HeaderCodec) where
  -- The headers whose values have a text.
  abbrev pub legible : List (Text × List ℕ) → List (Text × List ℕ)
  legible [] = []
  legible ((name, value) ∷ headers) =
      let rest = legible headers in
      elim (codec.to_str value) [ some _ ↦ (name, value) ∷ rest | none ↦ rest ]

  pub build_headers-text_headers :
      (hs : List (Text × List ℕ)) → build_headers codec (text_headers codec hs) ≡ some (legible hs)
  unfolding build_headers text_headers
  build_headers-text_headers [] = refl
  build_headers-text_headers ((name, value) ∷ hs) = elim (Option-cases (codec.to_str value)) [
    | inl e ↦ ground (arith, build_headers-text_headers hs)
    | inr (s, e) ↦ ground (arith, codec.from_text-to_str value s e, build_headers-text_headers hs)
  ]
