-- ===== src/Network/Faults.antt =====
-- What a failed request does to the network that the next request finds.
use session_cli.Base.{
  ℕ, zero, suc, ◌+◌, ◌-◌, ◌≡◌, ◌<◌, refl, ap, ◌∙◌, sym, Bool, true, false, List, [], ◌∷◌, some,
  Result, ok, err, ltb, arith, ◌⊎◌, inl, inr, Bool-cases, Result-cases,
}
use session_cli.Errors.{Link, retryable_error, other, can_retry, share, retryables}
use session_cli.Retrieve.{
  State, idle, Intervals, Fetch, get_or_retrieve, set_error, force_retry_next, cached, settle,
  Reply,
}
use session_cli.Retrieve.Answers.{get-force_retry}
use session_cli.Network.{AvailableNetwork, Chooser, foreign, answer_in_context, available_network}
use session_cli.Network.Legacy.{
  LegacyNetwork, Exchange, do_request, timed_request, give_up, perform_onion_req, is_success,
  is_server_error, intervals, Visit, fetch_of, get_available_network_state,
  send_onion_request_to_node,
}

-- The node answered in time with a status that is neither a success nor a server error.
abbrev pub IsRefused : Exchange → Type 0
IsRefused x =
    (x.elapsed ≡ false)
    × (x.built ≡ true)
    × ((status : ℕ) × ((x.status ≡ ok status)
          × (is_success status ≡ false)
          × (is_server_error status ≡ false)))

can_retry-foreign : (n : ℕ) → can_retry (foreign n) ≡ true
unfolding can_retry retryables
can_retry-foreign zero = refl
can_retry-foreign (suc n) = can_retry-foreign n

can_retry-context : (n : ℕ) → can_retry (other ∷ foreign n) ≡ true
can_retry-context n = can_retry-foreign (suc n)

-- A result that leaves the way open to try again.
abbrev retry_of : Result (List Link) (List ℕ) → Bool
retry_of (ok _) = true
retry_of (err e) = can_retry e

retry_of-answer : (r : Result ℕ (List ℕ)) → retry_of (answer_in_context r) ≡ true
retry_of-answer (ok b) = refl
retry_of-answer (err n) = can_retry-context n

retry_of-body :
    (x : Exchange) (status : ℕ)
    → x.status ≡ ok status
    → x.built ≡ true
    → is_success status ≡ true
    → retry_of (do_request x) ≡ true
unfolding do_request
retry_of-body x status s b h = elim (Result-cases x.body) [
  | inl (body, e) ↦ rw (b, s, h, e) (retry_of-answer (x.decrypt body))
  | inr (n, e) ↦ rw (b, s, h, e) (can_retry-context n)
]

retry_of-status :
    (x : Exchange) (status : ℕ)
    → x.status ≡ ok status
    → x.built ≡ true
    → is_success status ≡ false
    → retry_of (do_request x) ≡ is_server_error status
unfolding do_request can_retry retryables
retry_of-status x status s b h = rw (b, s, h)

retry_of-unbuilt : (x : Exchange) → x.built ≡ false → retry_of (do_request x) ≡ true
unfolding do_request
retry_of-unbuilt x b = rw b (can_retry-foreign 0)

retry_of-unposted :
    (x : Exchange) → x.built ≡ true → (n : ℕ) → x.status ≡ err n → retry_of (do_request x) ≡ true
unfolding do_request
retry_of-unposted x b n s = rw (b, s) (can_retry-context n)

retry_of-request :
    (x : Exchange) → x.elapsed ≡ false → (retry_of (do_request x) ≡ true) ⊎ IsRefused x
retry_of-request x t = elim (Bool-cases x.built) [
  | inr b ↦ inl (retry_of-unbuilt x b)
  | inl b ↦ elim (Result-cases x.status) [
    | inr (n, s) ↦ inl (retry_of-unposted x b n s)
    | inl (status, s) ↦ elim (Bool-cases (is_success status)) [
      | inl h ↦ inl (retry_of-body x status s b h)
      | inr h ↦ elim (Bool-cases (is_server_error status)) [
        | inl v ↦ inl (retry_of-status x status s b h ∙ v)
        | inr v ↦ inr (t, b, (status, (s, h, v)))
      ]
    ]
  ]
]

-- Every failed request may be tried again but a refused one.
retry_of-timed : (x : Exchange) → (retry_of (timed_request x) ≡ true) ⊎ IsRefused x
unfolding timed_request
retry_of-timed x = elim (Bool-cases x.elapsed) [
  | inl t ↦ inl (ground (arith, t, can_retry-context 0))
  | inr t ↦ ground (arith, t, retry_of-request x t)
]

refused-request :
    (x : Exchange) → IsRefused x → timed_request x ≡ err (retryable_error false ∷ other ∷ [])
unfolding timed_request do_request
refused-request x (t, b, (status, (s, h, v))) = rw (t, b, s, h, v)

module _ {ℓ} {N : Type ℓ} where
  after_request :
      (now : ℕ) (x : Exchange) (net : LegacyNetwork N) {e : List Link}
      → timed_request x ≡ err e
      → (perform_onion_req now x net).1 ≡ (give_up now e net).1
  unfolding perform_onion_req
  after_request now x net h = rw (perform_onion_req, h)

  give_up-retried :
      (now : ℕ) (e : List Link) (net : LegacyNetwork N)
      → can_retry e ≡ true
      → (give_up now e net).1.state ≡ force_retry_next net.state
  unfolding give_up
  give_up-retried now e net h = rw h

  give_up-kept :
      (now : ℕ) (e : List Link) (net : LegacyNetwork N)
      → can_retry e ≡ false
      → (give_up now e net).1.state ≡ set_error now e net.state
  unfolding give_up share
  give_up-kept now e net h = rw h

  answer-cached :
      (c : Intervals) (now : ℕ) (f : Fetch (AvailableNetwork N) (List Link))
      (s : State (AvailableNetwork N) (List Link)) {r : Result (List Link) (AvailableNetwork N)}
      → cached c now s ≡ some r
      → (get_or_retrieve c now f s).result ≡ r
  unfolding get_or_retrieve
  answer-cached c now f s e = rw (get_or_retrieve, e)

  settle-idle :
      (now : ℕ) (r : Result (List Link) (AvailableNetwork N)) → (settle now idle r).result ≡ r
  unfolding settle
  settle-idle now (ok a) = refl
  settle-idle now (err e) = refl

  -- A network that was answered is held by the state.
  holds-answered :
      (c : Intervals) (now later ended : ℕ) (f : Fetch (AvailableNetwork N) (List Link))
      (e : List Link) (s : State (AvailableNetwork N) (List Link)) (a : AvailableNetwork N)
      → (get_or_retrieve c now f s).result ≡ ok a
      → ltb (later - ended) c.min_retry_interval ≡ true
      → cached c later (set_error ended e (get_or_retrieve c now f s).state) ≡ some (ok a)
  unfolding get_or_retrieve set_error
  holds-answered c now later ended f e s a h y = ground (arith, h, y)

module _ {ℓ} {N : Type ℓ} (rand : Chooser N) where
  sent_through :
      (v : Visit N) (exchange : AvailableNetwork N → Exchange) (ended : ℕ) (net : LegacyNetwork N)
      {a : AvailableNetwork N}
      → (get_available_network_state rand v net).0 ≡ ok a
      → send_onion_request_to_node rand v exchange ended net
        ≡ perform_onion_req ended (exchange a) (get_available_network_state rand v net).1
  unfolding send_onion_request_to_node
  sent_through v exchange ended net h = rw (send_onion_request_to_node, h)

  available-forced :
      (w : Visit N) (net after : LegacyNetwork N)
      → after.state ≡ force_retry_next net.state
      → (get_available_network_state rand w after).0 ≡ available_network rand w.seed_answer
  unfolding get_available_network_state
  available-forced w net after h =
      ap (λ s. (get_or_retrieve intervals w.now (fetch_of rand w) s).result) h
      ∙ ap (λ (r : Reply (AvailableNetwork N) (List Link)). r.result)
          (get-force_retry intervals net.state w.now (fetch_of rand w))
      ∙ settle-idle w.done_at (available_network rand w.seed_answer)

  -- When a request through the network fails otherwise than by a status that is neither a success
  -- nor a server error, the next request, whenever it is made, fetches new nodes: it goes through
  -- them, or fails as the fetching does, and never goes through the old ones.
  pub send-retried :
      (v w : Visit N) (exchange : AvailableNetwork N → Exchange) (ended : ℕ) (net : LegacyNetwork N)
      (a : AvailableNetwork N) (e : List Link)
      → (get_available_network_state rand v net).0 ≡ ok a
      → timed_request (exchange a) ≡ err e
      → ¬ (IsRefused (exchange a))
      → (get_available_network_state rand w
          (send_onion_request_to_node rand v exchange ended net).1).0
        ≡ available_network rand w.seed_answer
  send-retried v w exchange ended net a e h q n =
      let before = (get_available_network_state rand v net).1 in
      let retry : can_retry e ≡ true = elim (retry_of-timed (exchange a)) [
        | inl r ↦ ap retry_of (sym q) ∙ r
        | inr refused ↦ absurd (n refused)
      ] in
      available-forced w before (send_onion_request_to_node rand v exchange ended net).1 (
        ap (λ (r : Result (List Link) (List ℕ) × LegacyNetwork N). r.1.state)
          (sent_through v exchange ended net h)
        ∙ ap (λ (t : LegacyNetwork N). t.state) (after_request ended (exchange a) before q)
        ∙ give_up-retried ended e before retry)

  -- When a request through the network fails by a status that is neither a success nor a server
  -- error, requests within the minimal retry interval after it still go through the same nodes.
  pub send-refused :
      (v w : Visit N) (exchange : AvailableNetwork N → Exchange) (ended : ℕ) (net : LegacyNetwork N)
      (a : AvailableNetwork N)
      → (get_available_network_state rand v net).0 ≡ ok a
      → IsRefused (exchange a)
      → w.now < ended + intervals.min_retry_interval
      → (get_available_network_state rand w
          (send_onion_request_to_node rand v exchange ended net).1).0
        ≡ ok a
  unfolding get_available_network_state can_retry retryables
  send-refused v w exchange ended net a h r y =
      let before = (get_available_network_state rand v net).1 in
      let e = retryable_error false ∷ other ∷ [] in
      let after : (send_onion_request_to_node rand v exchange ended net).1.state
          ≡ set_error ended e before.state =
        ap (λ (t : Result (List Link) (List ℕ) × LegacyNetwork N). t.1.state)
          (sent_through v exchange ended net h)
        ∙ ap (λ (t : LegacyNetwork N). t.state)
            (after_request ended (exchange a) before (refused-request (exchange a) r))
        ∙ give_up-kept ended e before refl in
      let held =
        holds-answered intervals v.now w.now ended (fetch_of rand v) e net.state a h
          (ground arith) in
      answer-cached intervals w.now (fetch_of rand w)
        (send_onion_request_to_node rand v exchange ended net).1.state
        (ap (cached intervals w.now) after ∙ held)
