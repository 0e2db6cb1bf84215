-- ===== src/Base/Assoc.antt =====
-- A table with a primary key as an association list. The keys are compared by a test.
use session_cli.Base.{
  ◌≡◌, refl, Bool, true, ◌↔◌, List, [], ◌∷◌, Option, none, some, arith, if◌then◌else◌,
}

module _ {ℓ κ} {K : Type ℓ} {V : Type κ} (same : K → K → Bool) where
  unfoldable pub lookup : K → List (K × V) → Option V
  lookup k [] = none
  lookup k ((j, v) ∷ l) = if same j k then some v else lookup k l

  -- INSERT OR REPLACE
  unfoldable pub replace : K → V → List (K × V) → List (K × V)
  replace k v [] = (k, v) ∷ []
  replace k v ((j, w) ∷ l) = if same j k then (k, v) ∷ l else (j, w) ∷ replace k v l

  module _ (same_iff : (a b : K) → (same a b ≡ true) ↔ (a ≡ b)) where
    pub lookup-replace :
        (k j : K) (v : V) (l : List (K × V))
        → lookup j (replace k v l) ≡ (if same k j then some v else lookup j l)
    unfolding lookup replace
    lookup-replace k j v [] = refl
    lookup-replace k j v ((i, w) ∷ l) =
        ground (arith, same_iff k j, same_iff i k, same_iff i j, lookup-replace k j v l)
