-- ===== src/Errors.antt =====
-- libsession-ui-core/src/utils/errors.rs: errors that carry whether the call may be tried again.
-- An `anyhow::Error` is the chain of its causes, the outermost first. A link that is no
-- `RetryableError` is what the crate anyhow or other code made of it, and only its place counts.
pub mod Retry
use session_cli.Base.{
  ℕ, Bool, true, false, List, [], ◌∷◌, Option, none, some, Result, ok, err, leb, ltb, ◌&&◌,
}

pub data Link : Type 0 where
  -- `RetryableError`, its source being the rest of the chain
  retryable_error : Bool → Link
  other : Link

-- `From<(StatusCode, &str)>`: the source is a message of its own.
unfoldable pub from_status : ℕ → List Link
from_status code = retryable_error (leb 500 code && ltb code 600) ∷ other ∷ []

unfoldable pub retryables : List Link → List Bool
retryables [] = []
retryables (retryable_error b ∷ chain) = b ∷ retryables chain
retryables (other ∷ chain) = retryables chain

-- `chain().filter_map(downcast_ref).map(retryable).next().unwrap_or(true)`
unfoldable pub can_retry : List Link → Bool
unfolding retryables
can_retry chain = elim (retryables chain) [ [] ↦ true | b ∷ _ ↦ b ]

-- `AnyhowExt::share`: `AnyhowError` has the shared error as its source; both results have it.
unfoldable pub share : List Link → List Link × List Link
share chain = (other ∷ chain, chain)

-- `Context::context` puts a link in front of the chain.
abbrev pub context : List Link → List Link
context chain = other ∷ chain

unfoldable pub with_retryable {ℓ κ} :
    {T : Type ℓ} {E : Type κ} → (E → List Link) → (E → Bool) → Result E T → Result (List Link) T
with_retryable into f (ok t) = ok t
with_retryable into f (err e) = err (retryable_error (f e) ∷ into e)
