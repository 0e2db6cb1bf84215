-- ===== src/Swarm.antt =====
-- libsession-ui-core/src/worker/poll_swarm_messages_once.rs with
-- libsession-ui-core/src/oxenss/retrieve.rs: one poll of a swarm node for the messages of an account
-- or group, from the hash of the last message that this node sent.
-- The random node, the signature and the node's answer are the environment's; the closure that saves
-- the messages is a parameter, a function on the rest of the database that may fail.
pub mod Poll
mod Tests
use session_cli.Base.{
  ℕ, List, [], ◌∷◌, Option, none, some, Result, ok, err, ◌>>=◌, ◌>>◌, ltb, Bool, if◌then◌else◌,
}
use session_cli.Base.Int.{ℤ}
use session_cli.Base.Text.{Text}
use session_cli.SyncState.{
  SwarmKey, SwarmMessageSyncState, SwarmStates, get_swarm_message_sync_state,
  save_swarm_message_sync_state,
}

-- `oxenss::retrieve::Message`
pub record SwarmMessage : Type 0 where
  pub data_of : List ℕ
  pub hash : Text
  pub expiration : ℕ
  pub sent : ℕ

pub record RetrieveMessageRequest {ℓ} (S : Type ℓ) : Type ℓ where
  pub session_id : Text
  pub last_hash : Text
  pub max_size : Option ℕ
  pub signature : S
  pub timestamp : ℕ
  pub namespace : ℤ

-- `iter().max_by_key(|m| m.sent)`: the last one of the greatest
unfoldable pub max_by_sent : List SwarmMessage → Option SwarmMessage
max_by_sent [] = none
max_by_sent (m ∷ ms) = elim (max_by_sent ms) [
  | none ↦ some m
  | some best ↦ some (if ltb best.sent m.sent then m else best)
]

-- `last_hash.map(str::to_owned).unwrap_or_default()`
unfoldable pub last_hash_of : Option SwarmMessageSyncState → Text
last_hash_of none = []
last_hash_of (some s) = s.last_synced_hash

-- The database: the table of sync states, and what the closure writes.
pub record Repository {ℓ} (D : Type ℓ) : Type ℓ where
  pub states : SwarmStates
  pub stored : D

pub record Polled {ℓ κ} (D : Type ℓ) (E : Type κ) : Type (ℓ ⊔ κ) where
  pub repo : Repository D
  pub result : Result E (Unit {0})

-- What a poll meets: the node, a fault of the query, the signature, the time, the node's answer to
-- the request, and a fault of the last statement.
pub record Environment {ℓ κ} (S : Type ℓ) (E : Type κ) : Type (ℓ ⊔ κ) where
  pub node : Result E Text
  pub query_fault : Option E
  pub signature : Result E S
  pub now : ℕ
  pub answer : Text → RetrieveMessageRequest S → Result E (List SwarmMessage)
  pub save_fault : Option E

module _ (session_id : Text) (ns : ℤ) where
  abbrev pub key_of : Text → SwarmKey
  key_of node = record { session_id = session_id; namespace = ns; node_public_key = node }

  unfoldable pub request_for {κ} :
      {S : Type κ} → Text → S → ℕ → SwarmStates → RetrieveMessageRequest S
  unfolding last_hash_of
  request_for node signature now states = record {
    session_id = session_id;
    last_hash = last_hash_of (get_swarm_message_sync_state (key_of node) states);
    max_size = none;
    signature = signature;
    timestamp = now;
    namespace = ns;
  }

  -- `RetrieveMessageRequest::new` and `execute_rpc`, behind the choice of a node and the query.
  unfoldable pub retrieve {κ μ} :
      {S : Type κ} {E : Type μ}
      → Environment S E
      → SwarmStates
      → Result E (Text × List SwarmMessage)
  unfolding request_for
  retrieve env states = do
    node ← env.node
    elim env.query_fault [ none ↦ ok tt | some e ↦ err e ]
    signature ← env.signature
    messages ← env.answer node (request_for node signature env.now states)
    ok (node, messages)

  -- `if let Some(hash) = latest_hash`
  unfoldable pub save_latest_hash {ℓ μ} :
      {D : Type ℓ} {E : Type μ}
      → Text
      → Option E
      → Option SwarmMessage
      → D
      → SwarmStates
      → Polled D E
  save_latest_hash node fault none stored states = record {
    repo = record { states = states; stored = stored };
    result = ok tt;
  }
  save_latest_hash node (some e) (some m) stored states = record {
    repo = record { states = states; stored = stored };
    result = err e;
  }
  save_latest_hash node none (some m) stored states = record {
    repo = record {
      states =
          save_swarm_message_sync_state (key_of node) (record { last_synced_hash = m.hash }) states;
      stored = stored;
    };
    result = ok tt;
  }

  unfoldable pub poll_swarm_messages_once {ℓ κ μ} :
      {D : Type ℓ} {S : Type κ} {E : Type μ}
      → (List SwarmMessage → D → Result E D)
      → Environment S E
      → Repository D
      → Polled D E
  unfolding retrieve save_latest_hash
  poll_swarm_messages_once save_swarm_messages env repo = elim (retrieve env repo.states) [
    | err e ↦ record { repo = repo; result = err e }
    | ok (node, messages) ↦ elim (save_swarm_messages messages repo.stored) [
      | err e ↦ record { repo = repo; result = err e }
      | ok stored ↦ save_latest_hash node env.save_fault (max_by_sent messages) stored repo.states
    ]
  ]
