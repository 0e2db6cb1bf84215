-- ===== src/Swarm/Poll.antt =====
-- What a poll leaves for the next one.
use mathlib.Core.Path.{subst, sym}
use session_cli.Base.{
  ℕ, ◌≤◌, ◌≡◌, refl, true, false, List, [], ◌∷◌, Option, none, some, Result, ok, err, arith,
  Bool-cases, Option-cases, Result-cases, inl, inr, ltb,
}
use session_cli.Base.Assoc.{lookup-replace}
use session_cli.Base.Int.{ℤ}
use session_cli.Base.Text.{Text}
use session_cli.SyncState.{
  SwarmKey, same_key, same_key_iff, SwarmMessageSyncState, SwarmStates,
  get_swarm_message_sync_state, save_swarm_message_sync_state,
}
use session_cli.Swarm.{
  SwarmMessage, max_by_sent, last_hash_of, Repository, Environment, key_of, request_for, retrieve,
  save_latest_hash, poll_swarm_messages_once,
}

-- No message of a list was sent after a time.
abbrev pub NoneAfter : ℕ → List SwarmMessage → Type 0
NoneAfter t [] = Unit
NoneAfter t (m ∷ ms) = (m.sent ≤ t) × NoneAfter t ms

NoneAfter-weaken : (t u : ℕ) (ms : List SwarmMessage) → t ≤ u → NoneAfter t ms → NoneAfter u ms
NoneAfter-weaken t u [] le h = tt
NoneAfter-weaken t u (m ∷ ms) le (h, hs) = (omega arith, NoneAfter-weaken t u ms le hs)

max_by_sent-empty : (ms : List SwarmMessage) → max_by_sent ms ≡ none → ms ≡ []
unfolding max_by_sent
max_by_sent-empty [] h = refl
max_by_sent-empty (m ∷ ms) h = elim (Option-cases (max_by_sent ms)) [
  | inl e ↦ ground arith
  | inr (b, e) ↦ ground arith
]

pub max_by_sent-NoneAfter :
    (ms : List SwarmMessage) (m : SwarmMessage) → max_by_sent ms ≡ some m → NoneAfter m.sent ms
unfolding max_by_sent
max_by_sent-NoneAfter [] m h = tt
max_by_sent-NoneAfter (x ∷ ms) m h = elim (Option-cases (max_by_sent ms)) [
  | inl e ↦
      let is : x ≡ m = ground arith in
      let nothing = max_by_sent-empty ms e in
      (ground arith, subst (NoneAfter m.sent) (sym nothing) tt)
  | inr (b, e) ↦ elim (Bool-cases (ltb b.sent x.sent)) [
    | inl p ↦
        let is : x ≡ m = ground arith in
        let later : b.sent ≤ m.sent = ground arith in
        (ground arith, NoneAfter-weaken b.sent m.sent ms later (max_by_sent-NoneAfter ms b e))
    | inr p ↦
        let is : b ≡ m = ground arith in
        let later : b.sent ≤ m.sent = ground arith in
        (ground arith, NoneAfter-weaken b.sent m.sent ms later (max_by_sent-NoneAfter ms b e))
  ]
]

same_key_refl : (k : SwarmKey) → same_key k k ≡ true
same_key_refl k = (same_key_iff k k).1 refl

save-get :
    (k : SwarmKey) (s : SwarmMessageSyncState) (states : SwarmStates)
    → get_swarm_message_sync_state k (save_swarm_message_sync_state k s states) ≡ some s
unfolding get_swarm_message_sync_state save_swarm_message_sync_state
save-get k s states =
    ground (arith, lookup-replace same_key same_key_iff k k s states, same_key_refl k)

save-get_other :
    (k j : SwarmKey) (s : SwarmMessageSyncState) (states : SwarmStates)
    → same_key k j ≡ false
    → get_swarm_message_sync_state j (save_swarm_message_sync_state k s states)
      ≡ get_swarm_message_sync_state j states
unfolding get_swarm_message_sync_state save_swarm_message_sync_state
save-get_other k j s states d = ground (arith, lookup-replace same_key same_key_iff k j s states)

module _ {ℓ μ} {D : Type ℓ} {E : Type μ} (session_id : Text) (ns : ℤ) where
  save_latest_hash-others :
      (node : Text) (fault : Option E) (latest : Option SwarmMessage) (stored : D)
      (states : SwarmStates) (other : SwarmKey)
      → same_key (key_of session_id ns node) other ≡ false
      → get_swarm_message_sync_state other
          (save_latest_hash session_id ns node fault latest stored states).repo.states
        ≡ get_swarm_message_sync_state other states
  unfolding save_latest_hash
  save_latest_hash-others node fault none stored states other d = refl
  save_latest_hash-others node (some e) (some m) stored states other d = refl
  save_latest_hash-others node none (some m) stored states other d =
      save-get_other (key_of session_id ns node) other (record { last_synced_hash = m.hash }) states
        d

  save_latest_hash-failed :
      (node : Text) (fault : Option E) (latest : Option SwarmMessage) (stored : D)
      (states : SwarmStates) (e : E)
      → (save_latest_hash session_id ns node fault latest stored states).result ≡ err e
      → (save_latest_hash session_id ns node fault latest stored states).repo.states ≡ states
  unfolding save_latest_hash
  save_latest_hash-failed node fault none stored states e h = refl
  save_latest_hash-failed node (some x) (some m) stored states e h = refl
  save_latest_hash-failed node none (some m) stored states e h = ground arith

module _ {ℓ κ μ} {D : Type ℓ} {S : Type κ} {E : Type μ} (session_id : Text) (ns : ℤ)
    (save_swarm_messages : List SwarmMessage → D → Result E D) where
  states-poll :
      (env : Environment S E) (repo : Repository D) (node : Text) (messages : List SwarmMessage)
      (latest : SwarmMessage)
      → retrieve session_id ns env repo.states ≡ ok (node, messages)
      → max_by_sent messages ≡ some latest
      → (poll_swarm_messages_once session_id ns save_swarm_messages env repo).result ≡ ok tt
      → (poll_swarm_messages_once session_id ns save_swarm_messages env repo).repo.states
        ≡ save_swarm_message_sync_state
            (key_of session_id ns node)
            (record { last_synced_hash = latest.hash })
            repo.states
  unfolding poll_swarm_messages_once save_latest_hash
  states-poll env repo node messages latest r m h =
      elim (Result-cases (save_swarm_messages messages repo.stored)) [
        | inr (x, e) ↦ ground arith
        | inl (d, e) ↦ elim (Option-cases env.save_fault) [
          | inl f ↦ ground arith
          | inr (x, f) ↦ ground arith
        ]
      ]

  -- After a poll that succeeds and that brought messages, no message was sent later than one whose
  -- hash the next request to the same node asks from, whatever else that request has.
  pub poll-next_request :
      (env : Environment S E) (repo : Repository D) (node : Text) (messages : List SwarmMessage)
      (latest : SwarmMessage) (signature : S) (now : ℕ)
      → retrieve session_id ns env repo.states ≡ ok (node, messages)
      → max_by_sent messages ≡ some latest
      → (poll_swarm_messages_once session_id ns save_swarm_messages env repo).result ≡ ok tt
      → ((request_for session_id ns node signature now
            (poll_swarm_messages_once session_id ns save_swarm_messages env
              repo).repo.states).last_hash
          ≡ latest.hash)
        × NoneAfter latest.sent messages
  unfolding request_for last_hash_of
  poll-next_request env repo node messages latest signature now r m h =
      let moved = states-poll env repo node messages latest r m h in
      let found =
        save-get (key_of session_id ns node) (record { last_synced_hash = latest.hash })
          repo.states in
      (ground arith, max_by_sent-NoneAfter messages latest m)

  -- A poll that fails, for whatever reason, leaves the sync states as they are, so that the next poll
  -- of the node asks from the same hash; the messages are stored or not as the closure has it.
  pub poll-failed :
      (env : Environment S E) (repo : Repository D) (e : E)
      → (poll_swarm_messages_once session_id ns save_swarm_messages env repo).result ≡ err e
      → (poll_swarm_messages_once session_id ns save_swarm_messages env repo).repo.states
        ≡ repo.states
  unfolding poll_swarm_messages_once
  poll-failed env repo e h = elim (Result-cases (retrieve session_id ns env repo.states)) [
    | inr (x, f) ↦ ground arith
    | inl ((node, messages), f) ↦ elim (Result-cases (save_swarm_messages messages repo.stored)) [
      | inr (x, g) ↦ ground arith
      | inl (d, g) ↦ ground (
        arith,
        save_latest_hash-failed session_id ns node env.save_fault (max_by_sent messages) d
            repo.states e,
      )
    ]
  ]

  -- A poll leaves the sync state of every other account, namespace or node as it is.
  pub poll-others :
      (env : Environment S E) (repo : Repository D) (node : Text) (messages : List SwarmMessage)
      (other : SwarmKey)
      → retrieve session_id ns env repo.states ≡ ok (node, messages)
      → same_key (key_of session_id ns node) other ≡ false
      → get_swarm_message_sync_state other
          (poll_swarm_messages_once session_id ns save_swarm_messages env repo).repo.states
        ≡ get_swarm_message_sync_state other repo.states
  unfolding poll_swarm_messages_once
  poll-others env repo node messages other r d =
      elim (Result-cases (save_swarm_messages messages repo.stored)) [
        | inr (x, g) ↦ ground arith
        | inl (stored, g) ↦ ground (
          arith,
          save_latest_hash-others session_id ns node env.save_fault (max_by_sent messages) stored
              repo.states other d,
        )
      ]
