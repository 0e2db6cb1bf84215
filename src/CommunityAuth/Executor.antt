-- ===== src/CommunityAuth/Executor.antt =====
-- The commands that a community's worker serves: what their callers get, and what the worker that
-- downloads messages is sent.
use session_cli.Base.{
  ℕ, zero, suc, ◌+◌, ◌≡◌, refl, ap, ◌∙◌, get_elem?, ◌==◌, if◌then◌else◌, none, Option-cases, inl,
  inr, Bool, true, List, [], ◌∷◌, ◌++◌, arith, some, Result, ok, err,
}
use session_cli.Base.Text.{Text}
use session_cli.CommunityAuth.{
  CommunityIdentityType, AuthError, Signing, User, Request, signed_head, body_hash, sign,
  authenticate, forwarded, choose_identity, anonymous, unblinded, blind15, blind25, Task,
  execute_rpc, sync_message_command, ServeEvent, taken, done, Served, remove_at, serve_event,
  serve_command,
}
use session_cli.CommunityAuth.Signed.{Checking, accepts, authenticate-accepts}

-- The tasks of the requests that are executed, and those that were answered.
abbrev pub replied : {O : Type 0} → List (Task × O) → List Task
replied [] = []
replied ((t, _) ∷ rs) = t ∷ replied rs

abbrev pub received {ℓ} : {D : Type ℓ} → List (ServeEvent D) → List Task
received [] = []
received (taken (execute_rpc t) ∷ es) = t ∷ received es
received (_ ∷ es) = received es

abbrev pub count_task : ℕ → List Task → ℕ
count_task c [] = 0
count_task c (t ∷ ts) = (if t.caller == c then 1 else 0) + count_task c ts

count_task-append :
    (c : ℕ) (ts us : List Task) → count_task c (ts ++ us) ≡ count_task c ts + count_task c us
count_task-append c [] us = omega arith
count_task-append c (t ∷ ts) us = omega (arith, count_task-append c ts us)

count-received {ℓ} :
    {D : Type ℓ} (c : ℕ) (e : ServeEvent D) (es : List (ServeEvent D))
    → count_task c (received (e ∷ es))
      ≡ count_task c (received (e ∷ [])) + count_task c (received es)
count-received c (taken (execute_rpc t)) es = omega arith
count-received c (taken (sync_message_command d)) es = omega arith
count-received c (done i) es = omega arith

count_task-remove_at :
    (c : ℕ) (ts : List Task) (i : ℕ) (t : Task)
    → get_elem? ts i ≡ some t
    → count_task c ts ≡ count_task c (remove_at ts i) + count_task c (t ∷ [])
unfolding remove_at
count_task-remove_at c [] i t e = cc
count_task-remove_at c (u ∷ ts) zero t e =
    let same : u ≡ t = ground (arith, e) in rw same (omega arith)
count_task-remove_at c (u ∷ ts) (suc i) t e = omega (arith, count_task-remove_at c ts i t e)

replied-append :
    {O : Type 0} (rs : List (Task × O)) (t : Task) (o : O)
    → replied (rs ++ (t, o) ∷ []) ≡ replied rs ++ t ∷ []
replied-append [] t o = refl
replied-append ((u, p) ∷ rs) t o = ap (λ ts. u ∷ ts) (replied-append rs t o)

module _ {ℓ} {D : Type ℓ} {O : Type 0} (execute : List ℕ → ℕ → Request → O) where
  -- How often a caller waits or was answered.
  abbrev pub open_tasks : ℕ → Served D O → ℕ
  open_tasks c s = count_task c s.running + count_task c (replied s.replies)

  done_missing :
      (i : ℕ) (s : Served D O)
      → get_elem? s.running i ≡ none
      → serve_event {D = D} execute (done i) s ≡ s
  unfolding serve_event
  done_missing i s e = rw (serve_event, e)

  done-found :
      (i : ℕ) (s : Served D O) (t : Task)
      → get_elem? s.running i ≡ some t
      → serve_event {D = D} execute (done i) s ≡ record s {
        running = remove_at s.running i;
        replies = s.replies ++ (t, execute t.nonce t.timestamp t.request) ∷ [];
      }
  unfolding serve_event
  done-found i s t e = rw (serve_event, e)

  event_tasks :
      (c : ℕ) (e : ServeEvent D) (s : Served D O)
      → open_tasks c (serve_event execute e s) ≡ count_task c (received (e ∷ [])) + open_tasks c s
  unfolding serve_event
  event_tasks c (taken (execute_rpc t)) s = omega (arith, count_task-append c s.running (t ∷ []))
  event_tasks c (taken (sync_message_command d)) s = omega arith
  event_tasks c (done i) s = elim (Option-cases (get_elem? s.running i)) [
    | inl e ↦ rw (done_missing i s e) (omega arith)
    | inr (t, e) ↦
        let o = execute t.nonce t.timestamp t.request in
        rw (done-found i s t e) (
          omega (
            arith,
            count_task-remove_at c s.running i t e,
            ap (count_task c) (replied-append s.replies t o),
            count_task-append c (replied s.replies) (t ∷ []),
          ))
  ]

module _ {O : Type 0} {signing : Signing} {user : User} {server_key : List ℕ}
    (checking : Checking signing user server_key) (inner : Request → O) where
  -- The executor of the worker: what is forwarded, executed by the inner one.
  abbrev inner_answer : Result AuthError Request → Result AuthError O
  inner_answer (ok r) = ok (inner r)
  inner_answer (err e) = err e

  abbrev pub execute_signed : CommunityIdentityType → List ℕ → ℕ → Request → Result AuthError O
  execute_signed identity nonce time r =
      inner_answer (forwarded signing (some user) server_key identity nonce time r)

  -- An identity that signs is not the anonymous one.
  forwarded-signed :
      (identity : CommunityIdentityType) (nonce : List ℕ) (time : ℕ) (r : Request) (m s : List ℕ)
      → sign signing user server_key identity m ≡ some s
      → forwarded signing (some user) server_key identity nonce time r
        ≡ authenticate signing user server_key identity nonce time r
  unfolding forwarded sign
  forwarded-signed anonymous nonce time r m s g = ground (arith, g)
  forwarded-signed unblinded nonce time r m s g = refl
  forwarded-signed (blind15 id) nonce time r m s g = refl
  forwarded-signed (blind25 id) nonce time r m s g = refl

  execute_signed-accepts :
      (blinds : Bool) (keys : List Text) (identity : CommunityIdentityType)
      → choose_identity signing user server_key blinds ≡ ok (keys, identity)
      → ((body : List ℕ) → (h : List ℕ) × (body_hash signing body ≡ ok h))
      → ((m : List ℕ) → (s : List ℕ) × (sign signing user server_key identity m ≡ some s))
      → (nonce : List ℕ) (time : ℕ) (r : Request)
      → (sent : Request) × (accepts checking sent ≡ true)
        × (sent.method ≡ r.method)
        × (sent.path_and_query ≡ r.path_and_query)
        × (sent.body ≡ r.body)
        × (execute_signed identity nonce time r ≡ ok (inner sent))
  execute_signed-accepts blinds keys identity e hashes signs nonce time r =
      let (h, f) = hashes r.body in
      let (s, g) = signs (signed_head signing server_key nonce time r ++ h) in
      let (sent, a, c, m, p, b) =
        authenticate-accepts checking blinds keys identity nonce time r h s e f g in
      (
        sent,
        c,
        m,
        p,
        b,
        ap inner_answer (
            forwarded-signed identity nonce time r
              (signed_head signing server_key nonce time r ++ h) s g
            ∙ a),
      )

  -- A request of the same method, path and body that the server accepts has this answer.
  abbrev pub IsAnswer : Task × Result AuthError O → Type 0
  IsAnswer (t, reply) =
      (sent : Request) × (accepts checking sent ≡ true)
      × (sent.method ≡ t.request.method)
      × (sent.path_and_query ≡ t.request.path_and_query)
      × (sent.body ≡ t.request.body)
      × (reply ≡ ok (inner sent))

  abbrev pub AllAnswers : List (Task × Result AuthError O) → Type 0
  AllAnswers [] = Unit
  AllAnswers (r ∷ rs) = IsAnswer r × AllAnswers rs

  AllAnswers-append :
      (rs : List (Task × Result AuthError O)) (r : Task × Result AuthError O)
      → AllAnswers rs
      → IsAnswer r
      → AllAnswers (rs ++ r ∷ [])
  AllAnswers-append [] r h a = (a, tt)
  AllAnswers-append (x ∷ rs) r (h, hs) a = (h, AllAnswers-append rs r hs a)

  module _ {ℓ} {D : Type ℓ} (blinds : Bool) (keys : List Text) (identity : CommunityIdentityType)
      (chosen : choose_identity signing user server_key blinds ≡ ok (keys, identity))
      (hashes : (body : List ℕ) → (h : List ℕ) × (body_hash signing body ≡ ok h))
      (signs : (m : List ℕ)
        → (s : List ℕ) × (sign signing user server_key identity m ≡ some s)) where
    event_answers :
        (e : ServeEvent D) (s : Served D (Result AuthError O))
        → AllAnswers s.replies
        → AllAnswers (serve_event (execute_signed identity) e s).replies
    unfolding serve_event
    event_answers (taken (execute_rpc t)) s h = h
    event_answers (taken (sync_message_command d)) s h = h
    event_answers (done i) s h = elim (Option-cases (get_elem? s.running i)) [
      | inl e ↦ rw (done_missing {D = D} (execute_signed identity) i s e) h
      | inr (t, e) ↦ rw (done-found {D = D} (execute_signed identity) i s t e) (
          AllAnswers-append s.replies (t, execute_signed identity t.nonce t.timestamp t.request) h
            (execute_signed-accepts blinds keys identity chosen hashes signs t.nonce t.timestamp
              t.request))
    ]

    -- The commands of a community whose requests are not batched, so that the authenticated
    -- executor executes each of them, signed by the identity chosen for the community, where its
    -- hashes and signatures are made, from a state whose replies are such answers: whichever tasks
    -- are done, in any order, each reply is the answer of the inner executor to a request of the
    -- same method, path and body as the command's, which the server accepts; and the times that
    -- each caller is answered or has a task that runs are those at the start and those that it gave
    -- a request.
    pub serve_command-answers :
        (es : List (ServeEvent D)) (s : Served D (Result AuthError O))
        → AllAnswers s.replies
        → AllAnswers (serve_command (execute_signed identity) es s).replies
          × ((c : ℕ)
              → open_tasks
                  (execute_signed identity)
                  c
                  (serve_command (execute_signed identity) es s)
                ≡ count_task c (received es) + open_tasks (execute_signed identity) c s)
    unfolding serve_command
    serve_command-answers [] s h = (h, λ c. omega arith)
    serve_command-answers (e ∷ es) s h =
        let (a, n) =
          serve_command-answers es (serve_event (execute_signed identity) e s)
            (event_answers e s h) in
        (
          a,
          λ c.
              omega
                (arith, n c, event_tasks (execute_signed identity) c e s, count-received c e es),
        )
