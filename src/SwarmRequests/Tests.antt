-- ===== src/SwarmRequests/Tests.antt =====
-- A group that is signed for by its members, and a node that takes a message as its own signature.
use session_cli.Base.{ℕ, ◌≡◌, refl, true, List, [], ◌∷◌, Option, none, some, ok, arith}
use session_cli.Base.Text.{text_eq, text_eq_refl, codes}
use session_cli.Dispatch.{group_kicked_messages}
use session_cli.SwarmRequests.{
  GroupInfo, GroupSignature, member_signature, GroupSigning, group_sign, StoreMessageRequest,
  SignedRetrieve, new_store, new_retrieve,
}
use session_cli.SwarmRequests.Accepted.{
  Checking, accepts_store, accepts_retrieve, requests-accepted,
}

abbrev copying : GroupSigning (List ℕ)
copying = record {
  sign = λ key payload. payload;
  sub_key_sign = λ payload auth. some payload;
  encrypt_message = λ payload. some payload;
}

abbrev the_groups : List GroupInfo
the_groups = record { group_id = codes "03ab"; sec_key = none; auth_data = some (9 ∷ []) } ∷ []

taken_as_signature :
    (m s : List ℕ) → ◌≡◌ {A = Option (List ℕ)} (some m) (some s) → text_eq m s ≡ true
taken_as_signature m s e = let p : m ≡ s = ground (arith, e) in rw p (text_eq_refl s)

abbrev comparing : Checking copying (codes "03ab") the_groups
comparing = record {
  verify_admin = λ payload signature. text_eq payload signature;
  verify_member = λ payload signature. text_eq payload signature;
  verify-sign = λ g key payload f k. text_eq_refl payload;
  verify-sub_key_sign = λ g auth payload s f a e. taken_as_signature payload s e;
}

copying_signs :
    (m : List ℕ)
    → (s : GroupSignature (List ℕ)) × (group_sign copying (codes "03ab") the_groups m ≡ ok s)
unfolding group_sign text_eq
copying_signs m = (member_signature m, refl)

requests-accepted_example :
    ((r : StoreMessageRequest (GroupSignature (List ℕ))) × (new_store
          (group_sign copying (codes "03ab") the_groups)
          (λ b. b)
          group_kicked_messages
          (1 ∷ 2 ∷ [])
          1700000000
          (codes "03ab")
          none
          86400
        ≡ ok r)
      × (accepts_store comparing r ≡ true)
      × (r.data_b64 ≡ 1 ∷ 2 ∷ []))
    × ((q : SignedRetrieve (GroupSignature (List ℕ))) × (new_retrieve
            (group_sign copying (codes "03ab") the_groups)
            group_kicked_messages
            (codes "03ab")
            1700000000
          ≡ ok q)
        × (accepts_retrieve comparing q ≡ true))
requests-accepted_example =
    requests-accepted comparing copying_signs (λ b. b) group_kicked_messages (1 ∷ 2 ∷ []) 1700000000
      (codes "03ab") none 86400 (omega arith)
