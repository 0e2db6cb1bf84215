-- ===== src/SyncMessages/Closure.antt =====
-- What the closure of the loops leaves in the table.
use mathlib.Core.Path.{subst}
use session_cli.Base.{
  ℕ, zero, suc, ◌≡◌, refl, sym, ap, ◌∙◌, true, List, [], ◌∷◌, Option, none, some, Result, ok, arith,
  get_elem?, ◌⊎◌, inl, inr, Option-cases, Result-cases,
}
use session_cli.Base.Int.{ℤ}
use session_cli.Base.Text.{Text}
use session_cli.Messages.{Message, Table, insert_or_ignore, save_messages}
use session_cli.Messages.Save.{skips, save-keeps, skips-insert, has_server_id, AllHaveServerId}
use session_cli.SyncState.{SwarmStates}
use session_cli.Swarm.{SwarmMessage, save_latest_hash}
use session_cli.SyncMessages.{
  SyncedContent, RegularMessage, create_db_message, db_messages, save_swarm_messages,
}

List-cases {ℓ} :
    {A : Type ℓ} (xs : List A) → (xs ≡ []) ⊎ ((x : A) × ((ys : List A) × (xs ≡ x ∷ ys)))
List-cases [] = inl refl
List-cases (x ∷ xs) = inr (x, (xs, refl))

module _ {ℓ κ} {B : Type ℓ} {E : Type κ} (session_id : Text)
    (decode : List ℕ → Result E (RegularMessage B)) where
  -- Saving a list leaves each of its messages skipped.
  pub save-skips :
      (ds : List (Message (SyncedContent B))) (k : ℕ) (d : Message (SyncedContent B))
      (t : Table (SyncedContent B))
      → get_elem? ds k ≡ some d
      → has_server_id d ≡ true
      → skips d (save_messages ds t) ≡ true
  unfolding save_messages
  save-skips [] k d t e h = ground (arith, e)
  save-skips (x ∷ ds) zero d t e h =
      subst (λ y. skips y (save_messages (x ∷ ds) t) ≡ true) (some-inj e)
        (save-keeps x ds (insert_or_ignore x t)
          (skips-insert x t (ap has_server_id (some-inj e) ∙ h)))
    where
      some-inj : some x ≡ some d → x ≡ d
      some-inj q = ground (arith, q)
  save-skips (x ∷ ds) (suc k) d t e h = save-skips ds k d (insert_or_ignore x t) e h

  -- A message that can be decoded is among those to save.
  pub db_messages-at :
      (ms : List SwarmMessage) (k : ℕ) (m : SwarmMessage) (d : Message (SyncedContent B))
      → get_elem? ms k ≡ some m
      → create_db_message session_id decode m ≡ ok d
      → (j : ℕ) × (get_elem? (db_messages session_id decode ms) j ≡ some d)
  unfolding db_messages
  db_messages-at [] k m d e c = ground (arith, e)
  db_messages-at (x ∷ ms) zero m d e c =
      let same : create_db_message session_id decode x ≡ ok d =
        ap (create_db_message session_id decode) (here e) ∙ c in
      (0, rw (db_messages, same))
    where
      here : some x ≡ some m → x ≡ m
      here q = ground (arith, q)
  db_messages-at (x ∷ ms) (suc k) m d e c =
      let (j, at) = db_messages-at ms k m d e c in
      elim (Result-cases (create_db_message session_id decode x)) [
        | inr (y, q) ↦ (j, rw (db_messages, q) at)
        | inl (y, q) ↦ (suc j, rw (db_messages, q) at)
      ]

  -- What the closure leaves is what `save_messages` leaves of the messages to save.
  pub save_swarm_messages-ok :
      (fault : Option E) (ms : List SwarmMessage) (t u : Table (SyncedContent B))
      → save_swarm_messages session_id decode fault ms t ≡ ok u
      → u ≡ save_messages (db_messages session_id decode ms) t
  unfolding save_swarm_messages save_messages
  save_swarm_messages-ok fault ms t u e = elim (List-cases (db_messages session_id decode ms)) [
    | inl q ↦ ground (arith, q, e)
    | inr (d, (ds, q)) ↦ elim (Option-cases fault) [
      | inl f ↦ ground (arith, q, f, e)
      | inr (x, f) ↦ ground (arith, q, f, e)
    ]
  ]

  pub save_swarm_messages-keeps :
      (fault : Option E) (ms : List SwarmMessage) (d : Message (SyncedContent B))
      (t u : Table (SyncedContent B))
      → save_swarm_messages session_id decode fault ms t ≡ ok u
      → skips d t ≡ true
      → skips d u ≡ true
  save_swarm_messages-keeps fault ms d t u e h =
      subst (λ x. skips d x ≡ true) (sym (save_swarm_messages-ok fault ms t u e))
        (keeps-all d (db_messages session_id decode ms) t h)
    where
      keeps-all :
          (d : Message (SyncedContent B)) (ds : List (Message (SyncedContent B)))
          (t : Table (SyncedContent B))
          → skips d t ≡ true
          → skips d (save_messages ds t) ≡ true
      keeps-all d ds t h = save-keeps d ds t h

  pub save_latest_hash-stored :
      (ns : ℤ) (node : Text) (fault : Option E) (latest : Option SwarmMessage)
      (t : Table (SyncedContent B)) (states : SwarmStates)
      → (save_latest_hash session_id ns node fault latest t states).repo.stored ≡ t
  unfolding save_latest_hash
  save_latest_hash-stored ns node fault none t states = refl
  save_latest_hash-stored ns node (some e) (some m) t states = refl
  save_latest_hash-stored ns node none (some m) t states = refl

  pub created_has_server_id :
      (m : SwarmMessage) (d : Message (SyncedContent B))
      → create_db_message session_id decode m ≡ ok d
      → has_server_id d ≡ true
  unfolding create_db_message
  created_has_server_id m d c = elim (Result-cases (decode m.data_of)) [
    | inr (x, r) ↦ ground (arith, r, c)
    | inl (y, r) ↦ let id : d.server_id ≡ some m.hash = ground (arith, r, c) in ground (arith, id)
  ]

  pub db_messages_have :
      (ms : List SwarmMessage) → AllHaveServerId (db_messages session_id decode ms)
  unfolding db_messages
  db_messages_have [] = tt
  db_messages_have (m ∷ ms) = elim (Result-cases (create_db_message session_id decode m)) [
    | inr (x, e) ↦ rw (db_messages, e) (db_messages_have ms)
    | inl (d, e) ↦ rw (db_messages, e) (created_has_server_id m d e, db_messages_have ms)
  ]

  pub saved-skips :
      (ms : List SwarmMessage) (k : ℕ) (m : SwarmMessage) (d : Message (SyncedContent B))
      (t u : Table (SyncedContent B))
      → get_elem? ms k ≡ some m
      → create_db_message session_id decode m ≡ ok d
      → save_swarm_messages session_id decode none ms t ≡ ok u
      → skips d u ≡ true
  saved-skips ms k m d t u e c q =
      let (j, at) = db_messages-at ms k m d e c in
      subst (λ x. skips d x ≡ true) (sym (save_swarm_messages-ok none ms t u q))
        (save-skips (db_messages session_id decode ms) j d t at (created_has_server_id m d c))

  pub faultless :
      (ms : List SwarmMessage) (t : Table (SyncedContent B))
      → (u : Table (SyncedContent B)) × (save_swarm_messages session_id decode none ms t ≡ ok u)
  unfolding save_swarm_messages
  faultless ms t = elim (List-cases (db_messages session_id decode ms)) [
    | inl q ↦ (t, ground (arith, q))
    | inr (d, (ds, q)) ↦ (save_messages (d ∷ ds) t, ground (arith, q))
  ]
