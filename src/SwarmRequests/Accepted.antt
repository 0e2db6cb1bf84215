-- ===== src/SwarmRequests/Accepted.antt =====
-- A node that knows the keys of a group takes the requests that are signed for it.
use session_cli.Base.{
  ℕ, zero, ◌^◌, ◌<◌, ◌≡◌, refl, Bool, true, List, [], ◌++◌, Option, none, some, ok, arith,
  Option-cases, inl, inr, lt→ltb,
}
use session_cli.Base.Decimal.{decimal}
use session_cli.Base.Int.{ℤ, pos}
use session_cli.Base.Text.{Text, codes}
use session_cli.Dispatch.{MessageNamespace, user_messages}
use session_cli.SwarmRequests.{
  int_text, sig_payload, GroupInfo, GroupSignature, admin_signature, member_signature, GroupSigning,
  find_group, group_sign, StoreMessageRequest, SignedRetrieve, new_store, new_retrieve,
  namespace_number, sign_as, stored_namespace,
}

-- What a node checks signatures of the group with, and what it relies on.
pub record Checking {ℓ} {S : Type ℓ} (signing : GroupSigning S) (id : Text)
    (groups : List GroupInfo) : Type ℓ where
  pub verify_admin : (payload signature : List ℕ) → Bool
  pub verify_member : List ℕ → S → Bool
  -- a signature with the secret key of the group in the config
  pub verify-sign :
      (g : GroupInfo) (key payload : List ℕ)
      → find_group id groups ≡ some g
      → g.sec_key ≡ some key
      → verify_admin payload (signing.sign key payload) ≡ true
  -- a signature with the auth data of the group in the config
  pub verify-sub_key_sign :
      (g : GroupInfo) (auth payload : List ℕ) (s : S)
      → find_group id groups ≡ some g
      → g.auth_data ≡ some auth
      → signing.sub_key_sign payload auth ≡ some s
      → verify_member payload s ≡ true

module _ {ℓ} {S : Type ℓ} {signing : GroupSigning S} {id : Text} {groups : List GroupInfo}
    (checking : Checking signing id groups) where
  abbrev pub verifies : List ℕ → GroupSignature S → Bool
  verifies payload (admin_signature s) = checking.verify_admin payload s
  verifies payload (member_signature s) = checking.verify_member payload s

  -- The text of a request, as the node builds it from what it is sent.
  abbrev number_part : ℤ → Text
  number_part (pos zero) = []
  number_part n = int_text n

  abbrev store_text : StoreMessageRequest (GroupSignature S) → Text
  store_text r = elim r.namespace [
    | none ↦ codes "store" ++ decimal r.timestamp_mills
    | some n ↦ codes "store" ++ (int_text n ++ decimal r.timestamp_mills)
  ]

  abbrev retrieve_text : SignedRetrieve (GroupSignature S) → Text
  retrieve_text r = codes "retrieve" ++ (number_part r.namespace ++ decimal r.timestamp)

  unfoldable pub accepts_store : StoreMessageRequest (GroupSignature S) → Bool
  accepts_store r = verifies (store_text r) r.signature

  unfoldable pub accepts_retrieve : SignedRetrieve (GroupSignature S) → Bool
  accepts_retrieve r = verifies (retrieve_text r) r.signature

  signed_as-verifies :
      (g : GroupInfo) (payload : List ℕ) (s : GroupSignature S)
      → find_group id groups ≡ some g
      → sign_as signing g.sec_key g.auth_data payload ≡ ok s
      → verifies payload s ≡ true
  signed_as-verifies g payload s f h = elim (Option-cases g.sec_key) [
    | inr (key, k) ↦ ground (arith, h, k, checking.verify-sign g key payload f k)
    | inl k ↦ elim (Option-cases g.auth_data) [
      | inl a ↦ ground (arith, h, k, a)
      | inr (auth, a) ↦ elim (Option-cases (signing.sub_key_sign payload auth)) [
        | inl e ↦ ground (arith, h, k, a, e)
        | inr (t, e) ↦
            ground (arith, h, k, a, e, checking.verify-sub_key_sign g auth payload t f a e)
      ]
    ]
  ]

  signed-verifies :
      (payload : List ℕ) (s : GroupSignature S)
      → group_sign signing id groups payload ≡ ok s
      → verifies payload s ≡ true
  unfolding group_sign
  signed-verifies payload s h = elim (Option-cases (find_group id groups)) [
    | inl f ↦ ground (arith, h, f)
    | inr (g, f) ↦ signed_as-verifies g payload s f (ground (arith, h, f))
  ]

  -- What is made of the parts of a request, in its place.
  store_request :
      (List ℕ → Text)
      → MessageNamespace
      → List ℕ
      → ℕ
      → Text
      → Option Text
      → ℕ
      → GroupSignature S
      → StoreMessageRequest (GroupSignature S)
  store_request base64 ns payload now dst dst_ed25519 ttl s = record {
    dst_pub_key = dst;
    data_b64 = base64 payload;
    ttl_mills = ttl;
    timestamp_mills = now;
    namespace = stored_namespace ns;
    dst_pub_key_ed25519 = dst_ed25519;
    signature = s;
  }

  text_of_store :
      (base64 : List ℕ → Text) (ns : MessageNamespace) (payload : List ℕ) (now : ℕ) (dst : Text)
      (dst_ed25519 : Option Text) (ttl : ℕ) (s : GroupSignature S)
      → store_text (store_request base64 ns payload now dst dst_ed25519 ttl s)
        ≡ sig_payload (codes "store") ns now
  unfolding sig_payload store_request
  text_of_store base64 user_messages payload now dst dst_ed25519 ttl s = refl
  text_of_store base64 ns payload now dst dst_ed25519 ttl s = refl

  text_of_retrieve :
      (ns : MessageNamespace) (now : ℕ) (s : GroupSignature S)
      → retrieve_text (record {
        session_id = id;
        namespace = namespace_number ns;
        timestamp = now;
        signature = s;
      })
        ≡ sig_payload (codes "retrieve") ns now
  unfolding sig_payload
  text_of_retrieve user_messages now s = refl
  text_of_retrieve ns now s = refl

  -- Where the group is in the config with a secret key, or with auth data that libsession signs by, its
  -- requests to store a message in any namespace and to retrieve from it are made, and a node that
  -- builds what is signed anew from the request takes them, given a time to live below 2^64.
  pub requests-accepted :
      (signs : (payload : List ℕ)
        → (s : GroupSignature S) × (group_sign signing id groups payload ≡ ok s))
      (base64 : List ℕ → Text) (ns : MessageNamespace) (payload : List ℕ) (now : ℕ) (dst : Text)
      (dst_ed25519 : Option Text) (ttl : ℕ)
      → ttl < 2 ^ 64
      → ((r : StoreMessageRequest (GroupSignature S)) × (new_store
              (group_sign signing id groups)
              base64
              ns
              payload
              now
              dst
              dst_ed25519
              ttl
            ≡ ok r)
          × (accepts_store r ≡ true)
          × (r.data_b64 ≡ base64 payload))
        × ((q : SignedRetrieve (GroupSignature S)) × (new_retrieve
                (group_sign signing id groups)
                ns
                id
                now
              ≡ ok q)
            × (accepts_retrieve q ≡ true))
  unfolding new_store new_retrieve accepts_store accepts_retrieve store_request
  requests-accepted signs base64 ns payload now dst dst_ed25519 ttl h =
      let (s, e) = signs (sig_payload (codes "store") ns now) in
      let (t, f) = signs (sig_payload (codes "retrieve") ns now) in
      (
        (
          store_request base64 ns payload now dst dst_ed25519 ttl s,
          rw (e, lt→ltb ttl (2 ^ 64) h) refl,
          rw (text_of_store base64 ns payload now dst dst_ed25519 ttl s)
              (signed-verifies (sig_payload (codes "store") ns now) s e),
          refl,
        ),
        (
          record {
            session_id = id;
            namespace = namespace_number ns;
            timestamp = now;
            signature = t;
          },
          rw f refl,
          rw (text_of_retrieve ns now t)
              (signed-verifies (sig_payload (codes "retrieve") ns now) t f),
        ),
      )
