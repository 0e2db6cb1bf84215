-- ===== src/Batcher.antt =====
-- libsession-ui-core/src/batcher.rs: requests that arrive within a window and fit together are sent
-- as one batch, and each caller gets its own answer.
-- Time is a number. A `oneshot` sender is the number of its caller, and what is sent through it is
-- a reply; a sender that is dropped unused is `cancelled` for its caller. The executor and the
-- batch request (the factory, its upstream call and the parsing of the response) are code of the
-- callers: together they are a function from the arguments and inputs of a batch to its outcome.
pub mod Queue
pub mod Replies
pub mod Runner
mod Tests
use session_cli.Base.{
  ℕ, ◌+◌, Bool, true, false, not, ◌&&◌, ◌||◌, List, [], ◌∷◌, ◌++◌, map, Option, none, some, Result,
  ok, err, leb, if◌then◌else◌,
}

-- The trait `Batchable`.
pub record Batchable {ℓ} (A : Type ℓ) : Type ℓ where
  pub should_batch_with : A → A → Bool
  pub can_batch : A → Bool

abbrev pub unit_batchable : Batchable (Unit {0})
unit_batchable = record { should_batch_with = λ _ _. true; can_batch = λ _. true }

-- A pair keeps the default `can_batch`.
abbrev pub pair_batchable {ℓ κ} :
    {A : Type ℓ} {B : Type κ} → Batchable A → Batchable B → Batchable (A × B)
pair_batchable a b = record {
  should_batch_with = λ x y. a.should_batch_with (x.0) (y.0) && b.should_batch_with (x.1) (y.1);
  can_batch = λ _. true;
}

-- `PendingBatchRequest`: its input, and the caller behind its sender.
pub record Pending {ℓ κ} (A : Type ℓ) (I : Type κ) : Type (ℓ ⊔ κ) where
  pub args : A
  pub input : I
  pub caller : ℕ

-- An entry of the queue: the deadline, and a `NonEmpty` of requests by its head and its rest.
pub record Batch {ℓ κ} (A : Type ℓ) (I : Type κ) : Type (ℓ ⊔ κ) where
  pub deadline : ℕ
  pub head : Pending A I
  pub rest : List (Pending A I)

-- What a caller receives.
pub data Reply {ℓ κ} (O : Type ℓ) (E : Type κ) : Type (ℓ ⊔ κ) where
  answer : O → Reply O E
  failure : E → Reply O E
  cancelled : Reply O E

module _ {ℓ κ} {A : Type ℓ} {I : Type κ} where
  abbrev pub requests : Batch A I → List (Pending A I)
  requests b = b.head ∷ b.rest

  abbrev pub new_batch : ℕ → Pending A I → Batch A I
  new_batch deadline req = record { deadline = deadline; head = req; rest = [] }

  abbrev pub callers : List (Pending A I) → List ℕ
  callers [] = []
  callers (r ∷ rs) = r.caller ∷ callers rs

module _ {ℓ κ} {A : Type ℓ} {I : Type κ} (args : Batchable A) (inputs : Batchable I) where
  -- `reqs.head().input.should_batch_with(&req.input)`, on the pair of arguments and input
  unfoldable pub fits : Batch A I → Pending A I → Bool
  fits b req =
      (pair_batchable args inputs).should_batch_with (b.head.args, b.head.input)
        (req.args, req.input)

  -- The first batch that fits takes the request; where none does, a new one is put last.
  unfoldable pub insert_to_batching : List (Batch A I) → Pending A I → ℕ → ℕ → List (Batch A I)
  insert_to_batching [] req now window = new_batch (now + window) req ∷ []
  insert_to_batching (b ∷ bs) req now window =
      if fits b req
      then record b { rest = b.rest ++ req ∷ [] } ∷ bs
      else b ∷ insert_to_batching bs req now window

  -- `execute`: whether the call goes to the batch runner, or else straight to the executor.
  unfoldable pub joins_batch : A → I → Bool
  joins_batch a i = not (not (inputs.can_batch i) || not (args.can_batch a))

-- The results are zipped with the callbacks; a callback behind the last result is dropped.
unfoldable pub deliver {ℓ κ} : {O : Type ℓ} {E : Type κ} → List O → List ℕ → List (ℕ × Reply O E)
deliver results [] = []
deliver [] (c ∷ cs) = (c, cancelled) ∷ deliver [] cs
deliver (o ∷ os) (c ∷ cs) = (c, answer o) ∷ deliver os cs

unfoldable pub fail_all {ℓ κ} : {O : Type ℓ} {E : Type κ} → E → List ℕ → List (ℕ × Reply O E)
fail_all e [] = []
fail_all e (c ∷ cs) = (c, failure e) ∷ fail_all e cs

-- The upstream call of a batch: the factory, `execute_rpc` and `try_into`.
abbrev pub Upstream {ℓ κ μ ν} : Type ℓ → Type κ → Type μ → Type ν → Type (ℓ ⊔ κ ⊔ μ ⊔ ν)
Upstream A I O E = A → List I → Result E (List O)

abbrev reply_all {ℓ κ} :
    {O : Type ℓ} {E : Type κ} → Result E (List O) → List ℕ → List (ℕ × Reply O E)
reply_all (ok results) cs = deliver results cs
reply_all (err e) cs = fail_all e cs

module _ {ℓ κ μ ν} {A : Type ℓ} {I : Type κ} {O : Type μ} {E : Type ν} where
  -- The arguments of the first request serve for all.
  unfoldable pub run_batch : Upstream A I O E → Batch A I → List (ℕ × Reply O E)
  unfolding deliver fail_all
  run_batch upstream b =
      reply_all (upstream b.head.args (map (λ r. r.input) (requests b))) (callers (requests b))
