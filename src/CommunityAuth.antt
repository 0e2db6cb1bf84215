-- ===== src/CommunityAuth.antt =====
-- libsession-ui-core/src/sogs_api/authenticated_executor.rs: requests to a community server are signed in
-- their headers; and libsession-ui-core/src/worker/community/sync_community.rs, which chooses the identity
-- that they are signed with and executes the requests of commands.
-- What libsession makes, the crate base64 and the inner executor are parameters. A header name is its
-- text in lower case, as the crate http keeps it. Where a binding answers false there is no value.
pub mod Signed
pub mod Executor
mod Tests
use session_cli.Base.{
  ℕ, zero, suc, get_elem?, Bool, true, false, ◌||◌, List, [], ◌∷◌, ◌++◌, Option, none, some, Result,
  ok, err, ok_or, ◌>>=◌, if◌then◌else◌,
}
use session_cli.Base.Assoc.{lookup, replace}
use session_cli.Base.Decimal.{decimal}
use session_cli.Base.Text.{Text, text_eq, codes}

pub data CommunityIdentityType : Type 0 where
  anonymous : CommunityIdentityType
  unblinded : CommunityIdentityType
  blind15 : Text → CommunityIdentityType
  blind25 : Text → CommunityIdentityType

pub data AuthError : Type 0 where
  hashing signing generating_ids generating_pair : AuthError

-- What is used of libsession and base64.
pub record Signing : Type 0 where
  pub session_hash : List ℕ → Option (List ℕ)
  pub ed25519_sign : (sec_key message : List ℕ) → Option (List ℕ)
  pub blind15_sign : (sec_key server_key message : List ℕ) → Option (List ℕ)
  pub blind25_sign : (sec_key server_key message : List ℕ) → Option (List ℕ)
  pub blind15_ids : Text → List ℕ → Option (Text × Text)
  pub blind15_pair_id : (sec_key server_key : List ℕ) → Option Text
  pub base64 : List ℕ → Text

-- Of the identity of the user: its ids as texts, and its secret key.
pub record User : Type 0 where
  pub sec_key : List ℕ
  pub ed25519_hex : Text
  pub individual_id : Text

pub record Request : Type 0 where
  pub method : Text
  pub path_and_query : Option Text
  pub headers : List (Text × Text)
  pub body : List ℕ

abbrev pub path_text : Request → Text
path_text r = elim r.path_and_query [ some p ↦ p | none ↦ codes "/" ]

abbrev pub insert_header : Text → Text → List (Text × Text) → List (Text × Text)
insert_header name value headers = replace text_eq name value headers

module _ (signing : Signing) where
  -- `message_to_sign` before the hash of the body
  abbrev pub signed_head : List ℕ → List ℕ → ℕ → Request → List ℕ
  signed_head server_key nonce timestamp r =
      server_key ++ (nonce ++ (decimal timestamp ++ (r.method ++ path_text r)))

  unfoldable pub body_hash : List ℕ → Result AuthError (List ℕ)
  body_hash [] = ok []
  body_hash (x ∷ body) = ok_or (signing.session_hash (x ∷ body)) hashing

  unfoldable pub pub_key_text : User → CommunityIdentityType → Text
  pub_key_text user anonymous = []
  pub_key_text user unblinded = codes "00" ++ user.ed25519_hex
  pub_key_text user (blind15 id) = id
  pub_key_text user (blind25 id) = id

  unfoldable pub sign : User → List ℕ → CommunityIdentityType → List ℕ → Option (List ℕ)
  sign user server_key anonymous message = none
  sign user server_key unblinded message = signing.ed25519_sign user.sec_key message
  sign user server_key (blind15 id) message = signing.blind15_sign user.sec_key server_key message
  sign user server_key (blind25 id) message = signing.blind25_sign user.sec_key server_key message

  abbrev pub signed_headers : List ℕ → ℕ → Text → List ℕ → List (Text × Text) → List (Text × Text)
  signed_headers nonce timestamp pub_key signature headers =
      insert_header (codes "x-sogs-signature") (signing.base64 signature) (
        insert_header (codes "x-sogs-pubkey") pub_key (
          insert_header (codes "x-sogs-timestamp") (decimal timestamp)
            (insert_header (codes "x-sogs-nonce") (signing.base64 nonce) headers)))

  unfoldable pub authenticate :
      User → List ℕ → CommunityIdentityType → List ℕ → ℕ → Request → Result AuthError Request
  unfolding body_hash sign pub_key_text
  authenticate user server_key identity nonce timestamp r = do
    hash ← body_hash r.body
    let message = signed_head server_key nonce timestamp r ++ hash
    signature ← ok_or (sign user server_key identity message) AuthError.signing
    ok (record r {
      headers = signed_headers nonce timestamp (pub_key_text user identity) signature r.headers;
    })

  -- `execute`: the request that the inner executor is called with.
  unfoldable pub forwarded :
      Option User → List ℕ → CommunityIdentityType → List ℕ → ℕ → Request → Result AuthError Request
  unfolding authenticate
  forwarded none server_key identity nonce timestamp r = ok r
  forwarded (some user) server_key anonymous nonce timestamp r = ok r
  forwarded (some user) server_key identity nonce timestamp r =
      authenticate user server_key identity nonce timestamp r

  -- The keys that are saved for the community, and the identity that its requests are signed with.
  unfoldable pub choose_identity :
      User → List ℕ → Bool → Result AuthError (List Text × CommunityIdentityType)
  choose_identity user server_key true = do
    ids ← ok_or (signing.blind15_ids user.individual_id server_key) generating_ids
    id ← ok_or (signing.blind15_pair_id user.sec_key server_key) generating_pair
    ok (ids.0 ∷ ids.1 ∷ [], blind15 id)
  choose_identity user server_key false = ok (user.individual_id ∷ [], unblinded)

-- `Capability`
pub data Capability : Type 0 where
  sogs blind reactions : Capability
  other : Text → Capability

unfoldable pub contains_blind : List Capability → Bool
contains_blind [] = false
contains_blind (blind ∷ caps) = true
contains_blind (_ ∷ caps) = contains_blind caps

-- `get_community_caps`, on what the server answers to each attempt: none while it has not answered
-- well. The errors are reported, and the end of the polls is not looked at.
unfoldable pub get_community_caps {ℓ} :
    {E : Type ℓ} → List (Result E (List Capability)) → Option (List Capability)
get_community_caps [] = none
get_community_caps (ok caps ∷ attempts) = some caps
get_community_caps (err e ∷ attempts) = get_community_caps attempts

-- The task that a command spawns: the caller behind its callback, and what it signs with.
pub record Task : Type 0 where
  pub caller : ℕ
  pub nonce : List ℕ
  pub timestamp : ℕ
  pub request : Request

-- `CommunityCommand`
pub data CommunityCommand {ℓ} (D : Type ℓ) : Type ℓ where
  execute_rpc : Task → CommunityCommand D
  sync_message_command : D → CommunityCommand D

-- A command is taken, or one of the tasks that run is done.
pub data ServeEvent {ℓ} (D : Type ℓ) : Type ℓ where
  taken : CommunityCommand D → ServeEvent D
  done : ℕ → ServeEvent D

-- The tasks that run, what was sent to callers, and to the worker that downloads messages.
pub record Served {ℓ κ} (D : Type ℓ) (O : Type κ) : Type (ℓ ⊔ κ) where
  pub running : List Task
  pub replies : List (Task × O)
  pub downloads : List D

unfoldable pub remove_at : List Task → ℕ → List Task
remove_at [] i = []
remove_at (t ∷ ts) zero = ts
remove_at (t ∷ ts) (suc i) = t ∷ remove_at ts i

module _ {ℓ κ} {D : Type ℓ} {O : Type κ} (execute : List ℕ → ℕ → Request → O) where
  unfoldable pub serve_event : ServeEvent D → Served D O → Served D O
  unfolding remove_at
  serve_event (taken (execute_rpc t)) s = record s { running = s.running ++ t ∷ [] }
  serve_event (taken (sync_message_command d)) s = record s { downloads = s.downloads ++ d ∷ [] }
  serve_event (done i) s = elim (get_elem? s.running i) [
    | none ↦ s
    | some t ↦ record s {
      running = remove_at s.running i;
      replies = s.replies ++ (t, execute t.nonce t.timestamp t.request) ∷ [];
    }
  ]

  -- `serve_command`: the tasks run at the same time, and answer when they are done; those that are
  -- not done when the commands end are dropped.
  unfoldable pub serve_command : List (ServeEvent D) → Served D O → Served D O
  unfolding serve_event
  serve_command [] s = s
  serve_command (e ∷ es) s = serve_command es (serve_event e s)
