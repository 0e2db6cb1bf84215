-- ===== src/Network.antt =====
-- libsession-ui-core/src/network/legacy.rs and swarm.rs: the nodes that requests go through, which are
-- retrieved, kept, and given up when a request through them fails.
-- The state is Retrieve's. The server's answers, the cryptography of onion requests, the random
-- choices and the time are the environment's. An error of other code is the number of links that it
-- has in the chain of Errors, of which none is a `RetryableError`.
pub mod Legacy
pub mod Faults
pub mod SwarmNodes
mod Tests
use session_cli.Base.{
  ℕ, zero, suc, Bool, true, false, List, [], ◌∷◌, ◌++◌, Option, none, some, Result, ok, err, leb,
  ltb, ◌&&◌, if◌then◌else◌, map, length, min, ◌≡◌,
}
use session_cli.Errors.{Link, other}
use session_cli.NonEmpty.{NonEmpty, from_iter}

-- An error of other code.
abbrev pub foreign : ℕ → List Link
foreign zero = other ∷ []
foreign (suc n) = other ∷ foreign n

-- What other code answers.
abbrev pub answer {ℓ} : {T : Type ℓ} → Result ℕ T → Result (List Link) T
answer (ok t) = ok t
answer (err n) = err (foreign n)

-- The same, with a context.
abbrev pub answer_in_context {ℓ} : {T : Type ℓ} → Result ℕ T → Result (List Link) T
answer_in_context (ok t) = ok t
answer_in_context (err n) = err (other ∷ foreign n)

-- `AvailableNetwork`
pub record AvailableNetwork {ℓ} (N : Type ℓ) : Type ℓ where
  pub random_nodes : NonEmpty N
  pub path : NonEmpty N

-- `choose_multiple` of the crate rand: so many elements of a list, or all where there are fewer.
pub record Chooser {ℓ} (N : Type ℓ) : Type ℓ where
  pub choose_multiple : ℕ → List N → List N
  pub length-choose_multiple :
      (k : ℕ) (xs : List N) → length (choose_multiple k xs) ≡ min k (length xs)

module _ {ℓ} {N : Type ℓ} (rand : Chooser N) where
  -- The retrieval of `get_available_network_state`, on the nodes that a seed node answers.
  unfoldable pub available_network : Result ℕ (List N) → Result (List Link) (AvailableNetwork N)
  available_network (err n) = err (other ∷ foreign n)
  available_network (ok nodes) = elim (from_iter nodes) [
    | none ↦ err (other ∷ [])
    | some random_nodes ↦ elim (from_iter (rand.choose_multiple 3 random_nodes.data_of)) [
      | none ↦ err (other ∷ [])
      | some path ↦ ok (record { random_nodes = random_nodes; path = path })
    ]
  ]
