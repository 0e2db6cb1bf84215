-- ===== src/SyncMessages/Stored.antt =====
-- What the loops leave in the table.
use mathlib.Core.Path.{subst}
use session_cli.Base.{
  ℕ, ◌≡◌, sym, ap, ◌∙◌, true, List, [], ◌∷◌, Option, none, some, Result, ok, err, arith, get_elem?,
  ◌⊎◌, inl, inr, Result-cases,
}
use session_cli.Base.Int.{ℤ}
use session_cli.Base.Text.{Text}
use session_cli.Messages.{Message, Table, any_conflict, save_messages}
use session_cli.Messages.Save.{skips, save_messages_idem}
use session_cli.Swarm.{
  SwarmMessage, Environment, Repository, max_by_sent, retrieve, poll_swarm_messages_once,
}
use session_cli.SyncMessages.{
  SyncedContent, RegularMessage, create_db_message, db_messages, save_swarm_messages, SyncEvent,
  polled, side_channel, sync_regular_messages,
}
use session_cli.SyncMessages.Closure.{
  save_swarm_messages-ok, save_swarm_messages-keeps, save_latest_hash-stored, saved-skips,
  faultless, db_messages_have,
}

module _ {ℓ κ} {B : Type ℓ} {E : Type κ} (session_id : Text)
    (decode : List ℕ → Result E (RegularMessage B)) where
  module _ {μ} {S : Type μ} (ns : ℤ) where
    poll_saved :
        (env : Environment S E) (fault : Option E) (repo : Repository (Table (SyncedContent B)))
        (node : Text) (ms : List SwarmMessage) (t : Table (SyncedContent B))
        → retrieve session_id ns env repo.states ≡ ok (node, ms)
        → save_swarm_messages session_id decode fault ms repo.stored ≡ ok t
        → (poll_swarm_messages_once session_id ns
            (save_swarm_messages session_id decode fault)
            env
            repo).repo.stored
          ≡ t
    unfolding poll_swarm_messages_once
    poll_saved env fault repo node ms t r q =
        rw (poll_swarm_messages_once, r, q)
          (save_latest_hash-stored session_id decode ns node env.save_fault (max_by_sent ms) t
            repo.states)

    -- The table after a poll is the one before it, or what the closure left.
    poll-stored-cases :
        (env : Environment S E) (fault : Option E) (repo : Repository (Table (SyncedContent B)))
        → let after =
            (poll_swarm_messages_once session_id ns
              (save_swarm_messages session_id decode fault)
              env
              repo).repo.stored in
          (after ≡ repo.stored)
          ⊎ ((ms : List SwarmMessage) × (save_swarm_messages session_id decode fault ms repo.stored
                ≡ ok after))
    unfolding poll_swarm_messages_once
    poll-stored-cases env fault repo =
        elim (Result-cases (retrieve session_id ns env repo.states)) [
          | inr (x, r) ↦ inl (rw (poll_swarm_messages_once, r))
          | inl ((node, ms), r) ↦
              elim (Result-cases (save_swarm_messages session_id decode fault ms repo.stored)) [
                | inr (x, q) ↦ inl (rw (poll_swarm_messages_once, r, q))
                | inl (t, q) ↦ inr (ms, q ∙ ap ok (sym (poll_saved env fault repo node ms t r q)))
              ]
        ]

    run-keeps :
        (d : Message (SyncedContent B)) (events : List (SyncEvent S E))
        (repo : Repository (Table (SyncedContent B)))
        → skips d repo.stored ≡ true
        → skips d (sync_regular_messages session_id decode ns events repo).1.stored ≡ true
    unfolding sync_regular_messages
    run-keeps d [] repo h = h
    run-keeps d (polled env fault ∷ events) repo h =
        run-keeps d events
          (poll_swarm_messages_once session_id ns (save_swarm_messages session_id decode fault) env
            repo).repo
          (elim (poll-stored-cases env fault repo) [
            | inl q ↦ subst (λ t. skips d t ≡ true) (sym q) h
            | inr (ms, q) ↦ save_swarm_messages-keeps session_id decode fault ms d repo.stored _ q h
          ])
    run-keeps d (side_channel fault ms ∷ events) repo h =
        elim (Result-cases (save_swarm_messages session_id decode fault ms repo.stored)) [
          | inr (x, q) ↦ rw (sync_regular_messages, q) h
          | inl (t, q) ↦
              rw (sync_regular_messages, q)
                (run-keeps d events (record repo { stored = t })
                  (save_swarm_messages-keeps session_id decode fault ms d repo.stored t q h))
        ]

    -- The messages that an event brings, where the database has no fault.
    abbrev pub brings :
        SyncEvent S E → Repository (Table (SyncedContent B)) → Option (List SwarmMessage)
    brings (polled env none) repo = elim (retrieve session_id ns env repo.states) [
      | ok (_, ms) ↦ some ms
      | err _ ↦ none
    ]
    brings (side_channel none ms) repo = some ms
    brings (polled _ (some _)) repo = none
    brings (side_channel (some _) _) repo = none

    brought-skips :
        (event : SyncEvent S E) (events : List (SyncEvent S E))
        (repo : Repository (Table (SyncedContent B))) (ms : List SwarmMessage) (k : ℕ)
        (m : SwarmMessage) (d : Message (SyncedContent B))
        → brings event repo ≡ some ms
        → get_elem? ms k ≡ some m
        → create_db_message session_id decode m ≡ ok d
        → skips d (sync_regular_messages session_id decode ns (event ∷ events) repo).1.stored ≡ true
    unfolding sync_regular_messages
    brought-skips (polled env (some x)) events repo ms k m d b e c = ground (arith, b)
    brought-skips (side_channel (some x) ys) events repo ms k m d b e c = ground (arith, b)
    brought-skips (side_channel none ys) events repo ms k m d b e c =
        let (u, q) = faultless session_id decode ys repo.stored in
        let same : ys ≡ ms = ground (arith, b) in
        rw (sync_regular_messages, q)
          (run-keeps d events (record repo { stored = u })
            (saved-skips session_id decode ys k m d repo.stored u (ap (λ l. get_elem? l k) same ∙ e)
              c q))
    brought-skips (polled env none) events repo ms k m d b e c =
        elim (Result-cases (retrieve session_id ns env repo.states)) [
          | inr (x, r) ↦ ground (arith, r, b)
          | inl ((node, ys), r) ↦
              let (u, q) = faultless session_id decode ys repo.stored in
              let same : ys ≡ ms = ground (arith, r, b) in
              run-keeps d events
                (poll_swarm_messages_once session_id ns (save_swarm_messages session_id decode none)
                  env repo).repo
                (subst (λ t. skips d t ≡ true) (sym (poll_saved env none repo node ys u r q))
                  (saved-skips session_id decode ys k m d repo.stored u
                    (ap (λ l. get_elem? l k) same ∙ e) c q))
        ]

    -- A message that a poll or the side channel brings, that can be decoded and whose saving meets no
    -- fault of the database, has a row with its repository and hash in the table, and has it after
    -- whatever polls and batches follow, with their faults and errors.
    pub brought-stored :
        (event : SyncEvent S E) (events : List (SyncEvent S E))
        (repo : Repository (Table (SyncedContent B))) (ms : List SwarmMessage) (k : ℕ)
        (m : SwarmMessage) (d : Message (SyncedContent B))
        → brings event repo ≡ some ms
        → get_elem? ms k ≡ some m
        → create_db_message session_id decode m ≡ ok d
        → any_conflict d
            (sync_regular_messages session_id decode ns (event ∷ events) repo).1.stored.rows
          ≡ true
    brought-stored event events repo ms k m d b e c = brought-skips event events repo ms k m d b e c

    -- Two polls one after the other, of the same node or of two, that are answered by the same
    -- messages, and whose saving meets no fault of the database: the second leaves the table as the
    -- first left it, whether or not the hash was saved between.
    pub poll_again :
        (first second : Environment S E) (repo : Repository (Table (SyncedContent B)))
        (node other : Text) (ms : List SwarmMessage)
        → retrieve session_id ns first repo.states ≡ ok (node, ms)
        → let once =
            (poll_swarm_messages_once session_id ns
              (save_swarm_messages session_id decode none)
              first
              repo).repo in
          retrieve session_id ns second once.states ≡ ok (other, ms)
          → (poll_swarm_messages_once session_id ns
              (save_swarm_messages session_id decode none)
              second
              once).repo.stored
            ≡ once.stored
    poll_again first second repo node other ms r q =
        let once =
          (poll_swarm_messages_once session_id ns (save_swarm_messages session_id decode none) first
            repo).repo in
        let (t, e) = faultless session_id decode ms repo.stored in
        let (u, f) = faultless session_id decode ms once.stored in
        let saved = save_messages (db_messages session_id decode ms) in
        let left : once.stored ≡ saved repo.stored =
          poll_saved first none repo node ms t r e
          ∙ save_swarm_messages-ok session_id decode none ms repo.stored t e in
        poll_saved second none once other ms u q f
        ∙ save_swarm_messages-ok session_id decode none ms once.stored u f
        ∙ ap saved left
        ∙ save_messages_idem (db_messages session_id decode ms) repo.stored
            (db_messages_have session_id decode ms)
        ∙ sym left
