-- ===== src/Swarm/Tests.antt =====
-- Witnesses for the theorems on polls: a node that sends two messages.
use session_cli.Base.{◌≡◌, refl, List, [], ◌∷◌, ◌++◌, none, some, Result, ok}
use session_cli.Base.Int.{pos}
use session_cli.Base.Text.{Text, codes}
use session_cli.Swarm.{
  SwarmMessage, Repository, Environment, max_by_sent, request_for, retrieve, save_latest_hash,
  poll_swarm_messages_once,
}
use session_cli.Swarm.Poll.{NoneAfter, poll-next_request}

abbrev early : SwarmMessage
early = record { data_of = []; hash = codes "h1"; expiration = 90; sent = 3 }

abbrev late : SwarmMessage
late = record { data_of = []; hash = codes "h2"; expiration = 90; sent = 5 }

abbrev two_messages : Environment Text Text
two_messages = record {
  node = ok (codes "n");
  query_fault = none;
  signature = ok (codes "s");
  now = 7;
  answer = λ node request. ok (late ∷ early ∷ []);
  save_fault = none;
}

abbrev keep_all : List SwarmMessage → List SwarmMessage → Result Text (List SwarmMessage)
keep_all new old = ok (old ++ new)

abbrev new_repo : Repository (List SwarmMessage)
new_repo = record { states = []; stored = [] }

abbrev me : Text
me = codes "05aa"

retrieved : retrieve me (pos 0) two_messages [] ≡ ok (codes "n", late ∷ early ∷ [])
unfolding retrieve
retrieved = refl

late_is_last : max_by_sent (late ∷ early ∷ []) ≡ some late
unfolding max_by_sent
late_is_last = refl

abbrev polled : Repository (List SwarmMessage)
polled = (poll_swarm_messages_once me (pos 0) keep_all two_messages new_repo).repo

poll-next_request_example :
    ((request_for me (pos 0) (codes "n") (codes "s2") 9 polled.states).last_hash ≡ codes "h2")
    × NoneAfter 5 (late ∷ early ∷ [])
unfolding poll_swarm_messages_once save_latest_hash max_by_sent retrieve
poll-next_request_example =
    poll-next_request me (pos 0) keep_all two_messages new_repo (codes "n") (late ∷ early ∷ []) late
      (codes "s2") 9 retrieved late_is_last refl
