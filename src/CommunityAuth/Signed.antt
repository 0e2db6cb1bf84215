-- ===== src/CommunityAuth/Signed.antt =====
-- A community server accepts what is signed: its own check of the headers, and that it succeeds.
use mathlib.Core.Path.{subst}
use session_cli.Base.{
  ℕ, ◌≡◌, refl, ◌∙◌, Bool, true, false, List, [], ◌∷◌, ◌++◌, Option, none, some, ok, if◌then◌else◌,
  arith, Option-cases, inl, inr,
}
use session_cli.Base.Assoc.{lookup, lookup-replace}
use session_cli.Base.Decimal.{decimal}
use session_cli.Base.Text.{Text, text_eq, text_eq_iff, codes}
use session_cli.CommunityAuth.{
  CommunityIdentityType, unblinded, blind15, Signing, User, Request, path_text, insert_header,
  signed_head, body_hash, pub_key_text, sign, signed_headers, authenticate, choose_identity,
}

-- What the server is given to check with, and what it relies on.
pub record Checking (signing : Signing) (user : User) (server_key : List ℕ) : Type 0 where
  pub read_base64 : Text → Option (List ℕ)
  pub verify : (pub_key : Text) (message signature : List ℕ) → Bool
  pub read-base64 : (b : List ℕ) → read_base64 (signing.base64 b) ≡ some b
  -- a signature of the user verifies against the user's key
  pub verify-ed25519 :
      (m s : List ℕ)
      → signing.ed25519_sign user.sec_key m ≡ some s
      → verify (codes "00" ++ user.ed25519_hex) m s ≡ true
  -- a blinded signature verifies against the id of the blinded pair
  pub verify-blind15 :
      (id : Text) (m s : List ℕ)
      → signing.blind15_pair_id user.sec_key server_key ≡ some id
      → signing.blind15_sign user.sec_key server_key m ≡ some s
      → verify id m s ≡ true

module _ {signing : Signing} {user : User} {server_key : List ℕ}
    (checking : Checking signing user server_key) where
  -- The check of the server: the message is built anew from the request and its headers.
  abbrev hash_part : List ℕ → Option (List ℕ)
  hash_part [] = some []
  hash_part (x ∷ body) = signing.session_hash (x ∷ body)

  abbrev check_signature :
      Text → Text → Option (List ℕ) → Option (List ℕ) → Option (List ℕ) → Request → Bool
  check_signature pub_key time (some nonce) (some signature) (some hash) r =
      checking.verify pub_key (server_key ++ (nonce ++ (time ++ (r.method ++ path_text r))) ++ hash)
        signature
  check_signature pub_key time _ _ _ r = false

  abbrev decoded : Option Text → Option (List ℕ)
  decoded none = none
  decoded (some t) = checking.read_base64 t

  abbrev check_headers :
      Option Text → Option Text → Option (List ℕ) → Option (List ℕ) → Request → Bool
  check_headers (some pub_key) (some time) nonce signature r =
      check_signature pub_key time nonce signature (hash_part r.body) r
  check_headers _ _ _ _ r = false

  unfoldable pub accepts : Request → Bool
  accepts r =
      check_headers (lookup text_eq (codes "x-sogs-pubkey") r.headers)
        (lookup text_eq (codes "x-sogs-timestamp") r.headers)
        (decoded (lookup text_eq (codes "x-sogs-nonce") r.headers))
        (decoded (lookup text_eq (codes "x-sogs-signature") r.headers)) r

  header-insert :
      (name other value : Text) (headers : List (Text × Text))
      → lookup text_eq other (insert_header name value headers)
        ≡ (if text_eq name other then some value else lookup text_eq other headers)
  header-insert name other value headers =
      lookup-replace text_eq text_eq_iff name other value headers

  signed-found :
      (nonce : List ℕ) (time : ℕ) (key : Text) (signature : List ℕ) (headers : List (Text × Text))
      → let h = signed_headers signing nonce time key signature headers in
        (lookup text_eq (codes "x-sogs-pubkey") h ≡ some key)
        × (lookup text_eq (codes "x-sogs-timestamp") h ≡ some (decimal time))
        × (lookup text_eq (codes "x-sogs-nonce") h ≡ some (signing.base64 nonce))
        × (lookup text_eq (codes "x-sogs-signature") h ≡ some (signing.base64 signature))
  unfolding text_eq
  signed-found nonce time key signature headers =
      let n = codes "x-sogs-nonce" in
      let t = codes "x-sogs-timestamp" in
      let k = codes "x-sogs-pubkey" in
      let s = codes "x-sogs-signature" in
      let nonce_text = signing.base64 nonce in
      let time_text = decimal time in
      let signature_text = signing.base64 signature in
      let h1 = insert_header n nonce_text headers in
      let h2 = insert_header t time_text h1 in
      let h3 = insert_header k key h2 in
      (
        header-insert s k signature_text h3 ∙ header-insert k k key h2,
        header-insert s t signature_text h3
            ∙ header-insert k t key h2
            ∙ header-insert t t time_text h1,
        header-insert s n signature_text h3
            ∙ header-insert k n key h2
            ∙ header-insert t n time_text h1
            ∙ header-insert n n nonce_text headers,
        header-insert s s signature_text h3,
      )

  body_hash-part : (body h : List ℕ) → body_hash signing body ≡ ok h → hash_part body ≡ some h
  unfolding body_hash
  body_hash-part [] h e = ground (arith, e)
  body_hash-part (x ∷ body) h e = elim (Option-cases (signing.session_hash (x ∷ body))) [
    | inl f ↦ ground (arith, e, f)
    | inr (a, f) ↦ ground (arith, e, f)
  ]

  abbrev Verifies : List ℕ → List ℕ → CommunityIdentityType → Type 0
  Verifies m s identity =
      sign signing user server_key identity m ≡ some s
      → checking.verify (pub_key_text signing user identity) m s ≡ true

  -- The identity that is chosen signs so that its key verifies.
  chosen-verify :
      (blinds : Bool) (keys : List Text) (identity : CommunityIdentityType) (m s : List ℕ)
      → choose_identity signing user server_key blinds ≡ ok (keys, identity)
      → sign signing user server_key identity m ≡ some s
      → checking.verify (pub_key_text signing user identity) m s ≡ true
  unfolding choose_identity sign pub_key_text
  chosen-verify false keys identity m s e f =
      let p : unblinded ≡ identity = ground (arith, e) in
      subst (Verifies m s) p (checking.verify-ed25519 m s) f
  chosen-verify true keys identity m s e f =
      elim (Option-cases (signing.blind15_ids user.individual_id server_key)) [
        | inl g ↦ ground (arith, e, g)
        | inr (ids, g) ↦ elim (Option-cases (signing.blind15_pair_id user.sec_key server_key)) [
          | inl h ↦ ground (arith, e, g, h)
          | inr (id, h) ↦
              let p : blind15 id ≡ identity = ground (arith, e, g, h) in
              subst (Verifies m s) p (checking.verify-blind15 id m s h) f
        ]
      ]

  -- Signed by the identity that is chosen for a community, whether its server blinds or not, a
  -- request is forwarded with its method, path and body, and the server, which builds the message
  -- anew and checks the signature against the key in the headers, accepts it.
  pub authenticate-accepts :
      (blinds : Bool) (keys : List Text) (identity : CommunityIdentityType) (nonce : List ℕ)
      (time : ℕ) (r : Request) (hash signature : List ℕ)
      → choose_identity signing user server_key blinds ≡ ok (keys, identity)
      → body_hash signing r.body ≡ ok hash
      → sign signing user server_key identity (signed_head signing server_key nonce time r ++ hash)
        ≡ some signature
      → (sent : Request) × (authenticate signing user server_key identity nonce time r ≡ ok sent)
        × (accepts sent ≡ true)
        × (sent.method ≡ r.method)
        × (sent.path_and_query ≡ r.path_and_query)
        × (sent.body ≡ r.body)
  unfolding authenticate accepts
  authenticate-accepts blinds keys identity nonce time r hash signature e h s =
      let key = pub_key_text signing user identity in
      let sent = record r { headers = signed_headers signing nonce time key signature r.headers } in
      let (k, t, n, g) = signed-found nonce time key signature r.headers in
      (
        sent,
        rw (authenticate, h, s),
        rw
            (
              k,
              t,
              n,
              g,
              checking.read-base64 nonce,
              checking.read-base64 signature,
              body_hash-part r.body hash h,
            )
            (chosen-verify blinds keys identity
              (signed_head signing server_key nonce time r ++ hash) signature e s),
        refl,
        refl,
        refl,
      )
