-- ===== src/Network/Tests.antt =====
-- Witnesses for the theorems on the nodes of a network: three nodes, which a seed node answers.
use session_cli.Base.{ℕ, ◌-◌, ◌<◌, ◌≡◌, refl, true, false, [], ◌∷◌, ok, arith, take, length-take}
use session_cli.NonEmpty.{from_vec}
use session_cli.Retrieve.{get_or_retrieve, cached, settle}
use session_cli.Network.{AvailableNetwork, Chooser, available_network}
use session_cli.Network.Legacy.{
  Exchange, Visit, new, get_available_network_state, send_onion_request_to_node,
}
use session_cli.Network.Faults.{send-refused}
use session_cli.Network.SwarmNodes.{Query}

abbrev rand : Chooser ℕ
rand = record { choose_multiple = take; length-choose_multiple = length-take }

abbrev visit : ℕ → Visit ℕ
visit now = record { now = now; seed_answer = ok (4 ∷ 5 ∷ []); done_at = now }

abbrev two_nodes : AvailableNetwork ℕ
two_nodes = record {
  random_nodes = record { data_of = 4 ∷ 5 ∷ [] };
  path = record { data_of = 4 ∷ 5 ∷ [] };
}

abbrev late : Exchange
late = record { built = true; status = ok 200; body = ok []; decrypt = λ b. ok b; elapsed = true }

abbrev refused : Exchange
refused = record {
  built = true;
  status = ok 404;
  body = ok [];
  decrypt = λ b. ok b;
  elapsed = false;
}

send-refused_example :
    (get_available_network_state rand
      (visit 20)
      (send_onion_request_to_node rand (visit 0) (λ a. refused) 10 new).1).0
    ≡ ok two_nodes
unfolding get_available_network_state available_network get_or_retrieve cached settle new from_vec
send-refused_example =
    send-refused rand (visit 0) (visit 20) (λ a. refused) 10 new two_nodes refl
      (refl, refl, (404, (refl, refl, refl))) (omega arith)

abbrev query : Query {S = ℕ} {N = ℕ} (λ s. s)
query = record { now = 0; answered = ok (7 ∷ 8 ∷ []); done_at = 1 }

last-IsBelow : (n : ℕ) → 0 < n → n - 1 < n
last-IsBelow n h = omega (arith, h)
