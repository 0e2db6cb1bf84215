-- ===== src/Network/Legacy.antt =====
-- `LegacyNetwork`: onion requests over a path of nodes.
use session_cli.Base.{
  ℕ, Bool, List, [], ◌∷◌, Option, none, some, Result, ok, err, leb, ltb, ◌&&◌, if◌then◌else◌,
}
use session_cli.Errors.{Link, retryable_error, other, can_retry, share}
use session_cli.NonEmpty.{choose_random}
use session_cli.Retrieve.{
  State, idle, Intervals, Fetch, get_or_retrieve, set_error, force_retry_next,
}
use session_cli.Network.{AvailableNetwork, Chooser, foreign, answer_in_context, available_network}

-- `NetworkState`; the addresses and the error are not looked at.
pub data NetworkState : Type 0 where
  idle_network connecting connected failing : NetworkState

pub record LegacyNetwork {ℓ} (N : Type ℓ) : Type ℓ where
  pub network_state : NetworkState
  pub state : State (AvailableNetwork N) (List Link)

-- A day, and five seconds.
abbrev pub intervals : Intervals
intervals = record { refresh_interval = 86400000; min_retry_interval = 5000 }

unfoldable pub new {ℓ} : {N : Type ℓ} → LegacyNetwork N
new = record { network_state = idle_network; state = idle }

abbrev pub is_success : ℕ → Bool
is_success status = leb 200 status && ltb status 300

abbrev pub is_server_error : ℕ → Bool
is_server_error status = leb 500 status && ltb status 600

-- What the steps of one onion request meet, in the order of the code: the building of the request,
-- the status of the post, the body read and decoded, and its decryption; and whether ten seconds
-- passed first.
pub record Exchange : Type 0 where
  pub built : Bool
  pub status : Result ℕ ℕ
  pub body : Result ℕ (List ℕ)
  pub decrypt : List ℕ → Result ℕ (List ℕ)
  pub elapsed : Bool

unfoldable pub do_request : Exchange → Result (List Link) (List ℕ)
do_request x =
    if x.built
    then elim x.status [
      | err n ↦ err (other ∷ foreign n)
      | ok status ↦
          if is_success status
          then elim x.body [
            | err n ↦ err (other ∷ foreign n)
            | ok body ↦ answer_in_context (x.decrypt body)
          ]
          else err (retryable_error (is_server_error status) ∷ other ∷ [])
    ]
    else err (other ∷ [])

-- `timeout(...).await.context(...).and_then(|r| r)`
unfoldable pub timed_request : Exchange → Result (List Link) (List ℕ)
unfolding do_request
timed_request x = if x.elapsed then err (other ∷ other ∷ []) else do_request x

module _ {ℓ} {N : Type ℓ} where
  -- What becomes of the network after an error of a request through it.
  unfoldable pub give_up : ℕ → List Link → LegacyNetwork N → List Link × LegacyNetwork N
  give_up now e net =
      if can_retry e
      then (e, record net { state = force_retry_next net.state })
      else (let (answered, shared) = share e in
          (answered, record net { state = set_error now shared net.state }))

  unfoldable pub perform_onion_req :
      ℕ → Exchange → LegacyNetwork N → Result (List Link) (List ℕ) × LegacyNetwork N
  unfolding timed_request give_up
  perform_onion_req now x net = elim (timed_request x) [
    | ok r ↦ (ok r, net)
    | err e ↦ (let (answered, after) = give_up now e net in (err answered, after))
  ]

-- A call: when it is made, what a seed node would answer, and when.
pub record Visit {ℓ} (N : Type ℓ) : Type ℓ where
  pub now : ℕ
  pub seed_answer : Result ℕ (List N)
  pub done_at : ℕ

module _ {ℓ} {N : Type ℓ} (rand : Chooser N) where
  abbrev pub fetch_of : Visit N → Fetch (AvailableNetwork N) (List Link)
  fetch_of v = record { outcome = available_network rand v.seed_answer; done_at = v.done_at }

  unfoldable pub get_available_network_state :
      Visit N → LegacyNetwork N → Result (List Link) (AvailableNetwork N) × LegacyNetwork N
  get_available_network_state v net =
      let reply = get_or_retrieve intervals v.now (fetch_of v) net.state in
      (
        reply.result,
        record {
          network_state = if reply.retrieved then connecting else net.network_state;
          state = reply.state;
        },
      )

  -- `send_onion_request_to_node`, up to the parsing of what it received; the exchange is with the
  -- head of the path, and ends at a time of its own.
  unfoldable pub send_onion_request_to_node :
      Visit N
      → (AvailableNetwork N → Exchange)
      → ℕ
      → LegacyNetwork N
      → Result (List Link) (List ℕ) × LegacyNetwork N
  unfolding get_available_network_state perform_onion_req
  send_onion_request_to_node v exchange ended net =
      let (avail, after) = get_available_network_state v net in
      elim avail [ err e ↦ (err e, after) | ok a ↦ perform_onion_req ended (exchange a) after ]

  -- `send_onion_request_to_random_node`: the second look at the network is that of the request.
  unfoldable pub send_onion_request_to_random_node :
      Visit N
      → ℕ
      → Visit N
      → (N → AvailableNetwork N → Exchange)
      → ℕ
      → LegacyNetwork N
      → Option (Result (List Link) (List ℕ × N)) × LegacyNetwork N
  unfolding get_available_network_state send_onion_request_to_node
  send_onion_request_to_random_node v index again exchange ended net =
      let (avail, after) = get_available_network_state v net in
      elim avail [
        | err e ↦ (some (err e), after)
        | ok a ↦ elim (choose_random index a.random_nodes) [
          | none ↦ (none, after)
          | some node ↦
              let (sent, final) = send_onion_request_to_node again (exchange node) ended after in
              elim sent [ err e ↦ (some (err e), final) | ok r ↦ (some (ok (r, node)), final) ]
        ]
      ]
