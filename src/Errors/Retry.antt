-- ===== src/Errors/Retry.antt =====
-- What becomes of the mark of an error on its way up.
use mathlib.Core.Path.{subst}
use session_cli.Base.{◌≡◌, refl, ◌∙◌, Bool, List, [], ◌∷◌, Result, err, arith}
use session_cli.Errors.{Link, can_retry, share, context, with_retryable, retryable_error}

-- What callers put around an error on its way up.
pub data Layer : Type 0 where
  in_context shared : Layer

abbrev pub wrapped : List Layer → List Link → List Link
wrapped [] chain = chain
wrapped (in_context ∷ layers) chain = context (wrapped layers chain)
wrapped (shared ∷ layers) chain = (share (wrapped layers chain)).0

can_retry-wrapped :
    (layers : List Layer) (chain : List Link) → can_retry (wrapped layers chain) ≡ can_retry chain
unfolding can_retry share
can_retry-wrapped [] chain = refl
can_retry-wrapped (in_context ∷ layers) chain = can_retry-wrapped layers chain
can_retry-wrapped (shared ∷ layers) chain = can_retry-wrapped layers chain

-- An error that was marked by `with_retryable` is retried as its mark says, whatever marks it had
-- inside, and through any number of contexts and of being shared.
pub can_retry-with_retryable {ℓ κ} :
    {T : Type ℓ} {E : Type κ} (into : E → List Link) (f : E → Bool) (r : Result E T) (e : E)
    (chain : List Link) (layers : List Layer)
    → r ≡ err e
    → with_retryable into f r ≡ err chain
    → can_retry (wrapped layers chain) ≡ f e
unfolding with_retryable can_retry
can_retry-with_retryable into f r e chain layers h k =
    let built : (retryable_error (f e) ∷ into e) ≡ chain = ground arith in
    let marked : can_retry chain ≡ f e = subst (λ c. can_retry c ≡ f e) built refl in
    can_retry-wrapped layers chain ∙ marked
