-- ===== src/Network/SwarmNodes.antt =====
-- libsession-ui-core/src/network/swarm.rs: `SwarmManager`, the nodes of an account's swarm.
use session_cli.Base.{
  ℕ, ◌≡◌, sym, arith, Option-cases, Result-cases, inl, inr, if◌then◌else◌, ltb, ◌-◌, Bool, true,
  false, List, [], ◌∷◌, Option, none, some, Result, ok, err, map, ◌<◌, length,
}
use session_cli.Errors.{Link, other}
use session_cli.NonEmpty.{NonEmpty, from_iter, choose_random, from_vec}
use session_cli.Retrieve.{
  State, idle, loaded, failed, retry_requested, Intervals, Reply, get_or_retrieve, cached, settle,
}
use session_cli.Retrieve.Answers.{get-cached, get-uncached}
use session_cli.NonEmpty.{get_elem?-some}
use mathlib.Core.Path.{subst}
use session_cli.Network.{foreign}

-- An hour, and a second.
abbrev pub intervals : Intervals
intervals = record { refresh_interval = 3600000; min_retry_interval = 1000 }

-- What the closure returns for the nodes that the executor answers.
unfoldable pub swarm_nodes {ℓ κ} :
    {S : Type ℓ} {N : Type κ} → (S → N) → Result ℕ (List S) → Result (List Link) (NonEmpty N)
swarm_nodes address (err n) = err (foreign n)
swarm_nodes address (ok snodes) = elim (from_iter (map address snodes)) [
  | none ↦ err (other ∷ [])
  | some nodes ↦ ok nodes
]

module _ {ℓ κ} {S : Type ℓ} {N : Type κ} (address : S → N) where
  unfoldable pub get_nodes :
      ℕ → Result ℕ (List S) → ℕ → State (NonEmpty N) (List Link) → Reply (NonEmpty N) (List Link)
  unfolding swarm_nodes
  get_nodes now answered done_at s =
      get_or_retrieve intervals now
        (record { outcome = swarm_nodes address answered; done_at = done_at }) s

  -- `get_random_node`; the index is drawn below the length, and none is an index out of range.
  unfoldable pub get_random_node :
      ℕ
      → Result ℕ (List S)
      → ℕ
      → (ℕ → ℕ)
      → State (NonEmpty N) (List Link)
      → Result (List Link) (Option N) × State (NonEmpty N) (List Link)
  unfolding get_nodes
  get_random_node now answered done_at draw s =
      let reply = get_nodes now answered done_at s in
      elim reply.result [
        | err e ↦ (err e, reply.state)
        | ok nodes ↦ (ok (choose_random (draw (length nodes.data_of)) nodes), reply.state)
      ]

  -- One call, and any calls on a shared state.
  pub record Query : Type ℓ where
    pub now : ℕ
    pub answered : Result ℕ (List S)
    pub done_at : ℕ

  unfoldable pub after_queries :
      List Query → State (NonEmpty N) (List Link) → State (NonEmpty N) (List Link)
  unfolding get_nodes
  after_queries [] s = s
  after_queries (q ∷ qs) s = after_queries qs (get_nodes q.now q.answered q.done_at s).state

  IsFilled : NonEmpty N → Type 0
  IsFilled n = 0 < length n.data_of

  -- What a state holds has a node.
  HoldsFilled : State (NonEmpty N) (List Link) → Type 0
  HoldsFilled (loaded v _) = IsFilled v
  HoldsFilled (failed (some v) _ _) = IsFilled v
  HoldsFilled (retry_requested (some v)) = IsFilled v
  HoldsFilled _ = Unit

  ResultFilled : Result (List Link) (NonEmpty N) → Type 0
  ResultFilled (ok v) = IsFilled v
  ResultFilled (err _) = Unit

  from_vec-ResultFilled :
      (xs : List N)
      → ResultFilled (elim (from_vec xs) [ none ↦ err (other ∷ []) | some nodes ↦ ok nodes ])
  unfolding from_vec ResultFilled IsFilled
  from_vec-ResultFilled [] = tt
  from_vec-ResultFilled (x ∷ xs) = omega arith

  swarm_nodes-ResultFilled : (r : Result ℕ (List S)) → ResultFilled (swarm_nodes address r)
  unfolding swarm_nodes ResultFilled
  swarm_nodes-ResultFilled (err n) = tt
  swarm_nodes-ResultFilled (ok snodes) = from_vec-ResultFilled (map address snodes)

  IsSoundReply : Reply (NonEmpty N) (List Link) → Type 0
  unfolding HoldsFilled ResultFilled
  IsSoundReply r = HoldsFilled r.state × ResultFilled r.result

  settle-IsSoundReply :
      (now : ℕ) (s : State (NonEmpty N) (List Link)) (r : Result (List Link) (NonEmpty N))
      → HoldsFilled s
      → ResultFilled r
      → IsSoundReply (settle now s r)
  unfolding settle HoldsFilled ResultFilled IsSoundReply
  settle-IsSoundReply now idle (ok v) h f = (f, f)
  settle-IsSoundReply now (loaded _ _) (ok v) h f = (f, f)
  settle-IsSoundReply now (failed _ _ _) (ok v) h f = (f, f)
  settle-IsSoundReply now (retry_requested _) (ok v) h f = (f, f)
  settle-IsSoundReply now (loaded v _) (err e) h f = (h, h)
  settle-IsSoundReply now (failed (some v) _ _) (err e) h f = (h, h)
  settle-IsSoundReply now (failed none _ _) (err e) h f = (tt, tt)
  settle-IsSoundReply now idle (err e) h f = (tt, tt)
  settle-IsSoundReply now (retry_requested _) (err e) h f = (tt, tt)

  CachedFilled : Option (Result (List Link) (NonEmpty N)) → Type 0
  unfolding ResultFilled
  CachedFilled none = Unit
  CachedFilled (some r) = ResultFilled r

  guarded-CachedFilled :
      (b : Bool) (r : Result (List Link) (NonEmpty N))
      → ResultFilled r
      → CachedFilled (if b then some r else none)
  unfolding CachedFilled
  guarded-CachedFilled true r h = h
  guarded-CachedFilled false r h = tt

  cached-CachedFilled :
      (now : ℕ) (s : State (NonEmpty N) (List Link))
      → HoldsFilled s
      → CachedFilled (cached intervals now s)
  unfolding cached HoldsFilled ResultFilled CachedFilled
  cached-CachedFilled now idle h = tt
  cached-CachedFilled now (retry_requested o) h = tt
  cached-CachedFilled now (loaded v t) h = guarded-CachedFilled (ltb (now - t) 3600000) (ok v) h
  cached-CachedFilled now (failed (some v) x t) h =
      guarded-CachedFilled (ltb (now - t) 1000) (ok v) h
  cached-CachedFilled now (failed none x t) h = guarded-CachedFilled (ltb (now - t) 1000) (err x) tt

  get_nodes-IsSoundReply :
      (q : Query) (s : State (NonEmpty N) (List Link))
      → HoldsFilled s
      → IsSoundReply (get_nodes q.now q.answered q.done_at s)
  unfolding get_nodes IsSoundReply CachedFilled
  get_nodes-IsSoundReply q s h = elim (Option-cases (cached intervals q.now s)) [
    | inl e ↦
        subst IsSoundReply
          (sym (
            get-uncached intervals q.now
              (record { outcome = swarm_nodes address q.answered; done_at = q.done_at }) s e))
          (settle-IsSoundReply q.done_at s (swarm_nodes address q.answered) h
            (swarm_nodes-ResultFilled q.answered))
    | inr (r, e) ↦
        subst IsSoundReply
          (sym (
            get-cached intervals q.now
              (record { outcome = swarm_nodes address q.answered; done_at = q.done_at }) s e))
          (h, subst CachedFilled e (cached-CachedFilled q.now s h))
  ]

  after_queries-HoldsFilled :
      (qs : List Query) (s : State (NonEmpty N) (List Link))
      → HoldsFilled s
      → HoldsFilled (after_queries qs s)
  unfolding after_queries IsSoundReply
  after_queries-HoldsFilled [] s h = h
  after_queries-HoldsFilled (q ∷ qs) s h =
      after_queries-HoldsFilled qs (get_nodes q.now q.answered q.done_at s).state
        (get_nodes-IsSoundReply q s h).0

  empty_state : HoldsFilled idle
  unfolding HoldsFilled
  empty_state = tt

  -- After any calls on a new manager, whatever the swarm answered, a random node is an error or the
  -- address of a node: the draw never meets an empty list, provided that it is below the length of a
  -- list that has an element.
  pub get_random_node-some :
      (draw : ℕ → ℕ) (qs : List Query) (q : Query) (found : Option N)
      → ((n : ℕ) → 0 < n → draw n < n)
      → (get_random_node q.now q.answered q.done_at draw (after_queries qs idle)).0 ≡ ok found
      → (x : N) × (found ≡ some x)
  unfolding get_random_node IsSoundReply ResultFilled IsFilled choose_random
  get_random_node-some draw qs q found d e =
      let before = after_queries qs idle in
      let sound = get_nodes-IsSoundReply q before (after_queries-HoldsFilled qs idle empty_state) in
      elim (Result-cases (get_nodes q.now q.answered q.done_at before).result) [
        | inr (x, r) ↦ ground (arith, r, e)
        | inl (nodes, r) ↦
            let (x, here) =
              get_elem?-some nodes.data_of (draw (length nodes.data_of))
                (d (length nodes.data_of) (subst ResultFilled r sound.1)) in
            (x, ground (arith, r, e, here))
      ]
