-- ===== src/Base/Text.antt =====
-- Text as its ASCII codes, with the comparisons that the program makes.
use Prim.Native.Char.{code}
use Prim.Native.String.{String}
use session_cli.Base.{
  ℕ, ◌+◌, ◌≡◌, refl, ◌↔◌, Bool, true, false, ◌&&◌, List, [], ◌∷◌, arith, leb, ◌==◌, if◌then◌else◌,
}

abbrev pub Text : Type 0
Text = List ℕ

-- The codes of an ASCII literal.
abbrev pub codes : String → Text
codes String.[] = []
codes (String.◌∷◌ c s) = code c ∷ codes s

unfoldable pub text_eq : Text → Text → Bool
text_eq [] [] = true
text_eq (x ∷ xs) (y ∷ ys) = x == y && text_eq xs ys
text_eq _ _ = false

pub text_eq_iff : (s t : Text) → (text_eq s t ≡ true) ↔ (s ≡ t)
unfolding text_eq
text_eq_iff (x ∷ xs) (y ∷ ys) = ground (arith, text_eq_iff xs ys)
text_eq_iff _ _ = ground arith

pub text_eq_symm : (s t : Text) → text_eq s t ≡ text_eq t s
unfolding text_eq
text_eq_symm (x ∷ xs) (y ∷ ys) = ground (arith, text_eq_symm xs ys)
text_eq_symm [] [] = refl
text_eq_symm [] (y ∷ ys) = refl
text_eq_symm (x ∷ xs) [] = refl

pub text_eq_refl : (s : Text) → text_eq s s ≡ true
text_eq_refl s = (text_eq_iff s s).1 refl

unfoldable pub to_ascii_lowercase : ℕ → ℕ
to_ascii_lowercase c = if leb b'A' c && leb c b'Z' then c + 32 else c

-- `eq_ignore_ascii_case`, and SQLite's `COLLATE NOCASE`
unfoldable pub eq_ignore_ascii_case : Text → Text → Bool
unfolding to_ascii_lowercase
eq_ignore_ascii_case [] [] = true
eq_ignore_ascii_case (x ∷ xs) (y ∷ ys) =
    to_ascii_lowercase x == to_ascii_lowercase y && eq_ignore_ascii_case xs ys
eq_ignore_ascii_case _ _ = false

pub eq_ignore_ascii_case_refl : (s : Text) → eq_ignore_ascii_case s s ≡ true
unfolding eq_ignore_ascii_case
eq_ignore_ascii_case_refl [] = refl
eq_ignore_ascii_case_refl (x ∷ xs) = ground (arith, eq_ignore_ascii_case_refl xs)

pub eq_ignore_ascii_case_symm : (s t : Text) → eq_ignore_ascii_case s t ≡ eq_ignore_ascii_case t s
unfolding eq_ignore_ascii_case
eq_ignore_ascii_case_symm (x ∷ xs) (y ∷ ys) = ground (arith, eq_ignore_ascii_case_symm xs ys)
eq_ignore_ascii_case_symm [] [] = refl
eq_ignore_ascii_case_symm [] (y ∷ ys) = refl
eq_ignore_ascii_case_symm (x ∷ xs) [] = refl
