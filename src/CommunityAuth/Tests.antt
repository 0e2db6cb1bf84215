-- ===== src/CommunityAuth/Tests.antt =====
-- A server that takes a message as its own signature.
use session_cli.Base.{ℕ, ◌+◌, ◌≡◌, refl, true, List, [], ◌∷◌, ◌++◌, Option, some, Result, ok, arith}
use session_cli.Base.Text.{text_eq, text_eq_refl, codes}
use session_cli.CommunityAuth.{
  Signing, User, Task, ServeEvent, taken, done, Served, AuthError, Request, blind15, execute_rpc,
  sync_message_command, choose_identity, body_hash, sign, signed_head, authenticate, serve_command,
}
use session_cli.CommunityAuth.Signed.{Checking, accepts, authenticate-accepts}
use session_cli.CommunityAuth.Executor.{
  execute_signed, AllAnswers, open_tasks, count_task, received, serve_command-answers,
}

abbrev plain : Signing
plain = record {
  session_hash = λ body. some body;
  ed25519_sign = λ sec_key message. some message;
  blind15_sign = λ sec_key server_key message. some message;
  blind25_sign = λ sec_key server_key message. some message;
  blind15_ids = λ id server_key. some (id, codes "15");
  blind15_pair_id = λ sec_key server_key. some (codes "15");
  base64 = λ bytes. bytes;
}

abbrev someone : User
someone = record { sec_key = 1 ∷ []; ed25519_hex = codes "ab"; individual_id = codes "05ab" }

verify_same : (m s : List ℕ) → ◌≡◌ {A = Option (List ℕ)} (some m) (some s) → text_eq m s ≡ true
verify_same m s e = let p : m ≡ s = ground (arith, e) in rw p (text_eq_refl s)

abbrev checking : Checking plain someone (9 ∷ [])
checking = record {
  read_base64 = λ text. some text;
  verify = λ pub_key message signature. text_eq message signature;
  read-base64 = λ b. refl;
  verify-ed25519 = λ m s e. verify_same m s e;
  verify-blind15 = λ id m s p e. verify_same m s e;
}

abbrev posting : Request
posting = record {
  method = codes "POST";
  path_and_query = some (codes "/room/one/message");
  headers = [];
  body = 7 ∷ 8 ∷ [];
}

chosen :
    choose_identity plain someone (9 ∷ []) true
    ≡ ok (codes "05ab" ∷ codes "15" ∷ [], blind15 (codes "15"))
unfolding choose_identity
chosen = refl

posting_hash : body_hash plain posting.body ≡ ok (7 ∷ 8 ∷ [])
unfolding body_hash
posting_hash = refl

abbrev message : List ℕ
message = signed_head plain (9 ∷ []) (3 ∷ []) 1700000000 posting ++ 7 ∷ 8 ∷ []

signed : sign plain someone (9 ∷ []) (blind15 (codes "15")) message ≡ some message
unfolding sign
signed = refl

authenticate-accepts_example :
    (sent : Request) × (authenticate plain someone
        (9 ∷ [])
        (blind15 (codes "15"))
        (3 ∷ [])
        1700000000
        posting
      ≡ ok sent)
    × (accepts checking sent ≡ true)
    × (sent.method ≡ posting.method)
    × (sent.path_and_query ≡ posting.path_and_query)
    × (sent.body ≡ posting.body)
authenticate-accepts_example =
    authenticate-accepts checking true (codes "05ab" ∷ codes "15" ∷ []) (blind15 (codes "15"))
      (3 ∷ []) 1700000000 posting (7 ∷ 8 ∷ []) message chosen posting_hash signed

hashes : (body : List ℕ) → (h : List ℕ) × (body_hash plain body ≡ ok h)
unfolding body_hash
hashes [] = ([], refl)
hashes (x ∷ body) = (x ∷ body, refl)

signs :
    (m : List ℕ) → (s : List ℕ) × (sign plain someone (9 ∷ []) (blind15 (codes "15")) m ≡ some s)
unfolding sign
signs m = (m, refl)

abbrev task : ℕ → Task
task caller = record {
  caller = caller;
  nonce = caller ∷ [];
  timestamp = 1700000000;
  request = posting;
}

-- The task of the second command is done first, and that of the first command not at all.
abbrev served : List (ServeEvent ℕ)
served =
    taken (execute_rpc (task 1))
    ∷ taken (sync_message_command 5)
    ∷ taken (execute_rpc (task 2))
    ∷ done 1
    ∷ []

abbrev body_of : Request → List ℕ
body_of r = r.body

abbrev not_started : Served ℕ (Result AuthError (List ℕ))
not_started = record { running = []; replies = []; downloads = [] }

serve_command-answers_example :
    let execute = execute_signed checking body_of (blind15 (codes "15")) in
    AllAnswers checking body_of (serve_command execute served not_started).replies
    × ((c : ℕ)
        → open_tasks execute c (serve_command execute served not_started)
          ≡ count_task c (received served) + open_tasks execute c not_started)
serve_command-answers_example =
    serve_command-answers checking body_of true (codes "05ab" ∷ codes "15" ∷ [])
      (blind15 (codes "15")) chosen hashes signs served not_started tt
