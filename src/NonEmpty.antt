-- ===== src/NonEmpty.antt =====
-- libsession-ui-core/src/utils/iter/non_empty.rs: `NonEmpty`, a vector that is built only where it has
-- an element. An index out of range and an `unwrap` of nothing are none, which the code answers by a
-- panic. What the generator of random numbers gives is an argument.
use session_cli.Base.{
  ℕ, zero, suc, ◌<◌, ◌≡◌, refl, List, [], ◌∷◌, ◌++◌, map, Option, none, some, length, get_elem?,
  arith, length-append, length-map,
}

pub record NonEmpty {ℓ} (T : Type ℓ) : Type ℓ where
  pub data_of : List T

module _ {ℓ} {T : Type ℓ} where
  unfoldable pub from_vec : List T → Option (NonEmpty T)
  from_vec [] = none
  from_vec (x ∷ xs) = some (record { data_of = x ∷ xs })

  -- `from_iter`, of an iterator that is the list of its items
  abbrev pub from_iter : List T → Option (NonEmpty T)
  from_iter xs = from_vec xs

  unfoldable pub of_head : T → List T → NonEmpty T
  of_head head rest = record { data_of = head ∷ rest }

  unfoldable pub head : NonEmpty T → Option T
  head n = get_elem? n.data_of 0

  -- `choose_random`, for the index drawn from 0 up to the length
  unfoldable pub choose_random : ℕ → NonEmpty T → Option T
  choose_random index n = get_elem? n.data_of index

  unfoldable pub push : T → NonEmpty T → NonEmpty T
  push item n = record { data_of = n.data_of ++ item ∷ [] }

unfoldable pub map_all {ℓ κ} : {T : Type ℓ} {U : Type κ} → (T → U) → NonEmpty T → NonEmpty U
map_all f n = record { data_of = map f n.data_of }

module _ {ℓ} {T : Type ℓ} where
  -- The values that the operations of the type build.
  pub data Built : NonEmpty T → Type ℓ where
    by_vec : (xs : List T) {n : NonEmpty T} → from_vec xs ≡ some n → Built n
    by_head : (x : T) (xs : List T) → Built (of_head x xs)
    by_map : (f : T → T) {n : NonEmpty T} → Built n → Built (map_all f n)
    by_push : (x : T) {n : NonEmpty T} → Built n → Built (push x n)

  from_vec-data : (xs : List T) {n : NonEmpty T} → from_vec xs ≡ some n → n.data_of ≡ xs
  unfolding from_vec
  from_vec-data [] e = ground (arith, e)
  from_vec-data (x ∷ xs) e = ground (arith, e)

  Built-length : {n : NonEmpty T} → Built n → 0 < length n.data_of
  unfolding from_vec of_head map_all push
  Built-length (by_vec [] e) = ground (arith, e)
  Built-length (by_vec (x ∷ xs) e) = ground (arith, e)
  Built-length (by_head x xs) = omega arith
  Built-length (by_map f {n} b) = omega (arith, length-map n.data_of f, Built-length b)
  Built-length (by_push x {n} b) = omega (arith, length-append n.data_of (x ∷ []), Built-length b)

  pub get_elem?-some : (xs : List T) (i : ℕ) → i < length xs → (x : T) × (get_elem? xs i ≡ some x)
  get_elem?-some [] i h = elim h [ ]
  get_elem?-some (x ∷ xs) zero h = (x, refl)
  get_elem?-some (x ∷ xs) (suc i) h = get_elem?-some xs i (omega arith)

  -- The head of a value that the operations built, and the element at any index that is drawn below
  -- its length, are there: neither access panics, and there is an index to draw.
  pub choose_random-Built :
      {n : NonEmpty T} (b : Built n)
      → (0 < length n.data_of)
        × ((x : T) × (head n ≡ some x))
        × ((i : ℕ) → i < length n.data_of → (x : T) × (choose_random i n ≡ some x))
  unfolding head choose_random
  choose_random-Built {n} b = (
    Built-length b,
    get_elem?-some n.data_of 0 (Built-length b),
    λ i h. get_elem?-some n.data_of i h,
  )
