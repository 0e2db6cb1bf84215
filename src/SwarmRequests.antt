-- ===== src/SwarmRequests.antt =====
-- Signed requests to the nodes of a swarm: libsession-ui-core/src/oxenss/store.rs and `new` of
-- libsession-ui-core/src/oxenss/retrieve.rs, with the signatures of groups of
-- libsession-ui-core/src/worker/group/auth.rs.
-- What libsession signs, and the text of a payload in base64, are parameters; a key is its text.
pub mod Accepted
mod Tests
use session_cli.Base.{
  ℕ, suc, ◌^◌, Bool, List, [], ◌∷◌, ◌++◌, Option, none, some, Result, ok, err, ensure, ok_or, ltb,
  ◌>>=◌, ◌>>◌, if◌then◌else◌,
}
use session_cli.Base.Decimal.{decimal}
use session_cli.Base.Int.{ℤ, pos, negsuc}
use session_cli.Base.Text.{Text, text_eq, codes}
use session_cli.Dispatch.{
  MessageNamespace, user_messages, contacts_config, user_profile_config, convo_info_volatile_config,
  user_groups_config, group_messages, group_kicked_messages, group_keys_config, group_info_config,
  group_member_config,
}

-- `namespace as isize`
abbrev pub namespace_number : MessageNamespace → ℤ
namespace_number user_messages = pos 0
namespace_number contacts_config = pos 3
namespace_number user_profile_config = pos 2
namespace_number convo_info_volatile_config = pos 4
namespace_number user_groups_config = pos 5
namespace_number group_messages = pos 11
namespace_number group_kicked_messages = negsuc 10
namespace_number group_keys_config = pos 12
namespace_number group_info_config = pos 13
namespace_number group_member_config = pos 14

-- `isize::to_string`
abbrev pub int_text : ℤ → Text
int_text (pos n) = decimal n
int_text (negsuc n) = b'-' ∷ decimal (suc n)

-- The text that is signed for a method: the namespace of messages to users is left out.
unfoldable pub sig_payload : Text → MessageNamespace → ℕ → Text
sig_payload method user_messages now = method ++ decimal now
sig_payload method ns now = method ++ (int_text (namespace_number ns) ++ decimal now)

pub data SignError : Type 0 where
  group_not_found no_key_or_auth_data signing encrypting encryption_for_others ttl_too_large :
      SignError

-- Of a group of the config.
pub record GroupInfo : Type 0 where
  pub group_id : Text
  pub sec_key : Option (List ℕ)
  pub auth_data : Option (List ℕ)

pub data GroupSignature {ℓ} (S : Type ℓ) : Type ℓ where
  admin_signature : List ℕ → GroupSignature S
  member_signature : S → GroupSignature S

pub record GroupSigning {ℓ} (S : Type ℓ) : Type ℓ where
  pub sign : (sec_key payload : List ℕ) → List ℕ
  pub sub_key_sign : (payload auth_data : List ℕ) → Option S
  pub encrypt_message : List ℕ → Option (List ℕ)

unfoldable pub find_group : Text → List GroupInfo → Option GroupInfo
find_group id [] = none
find_group id (g ∷ groups) = if text_eq g.group_id id then some g else find_group id groups

module _ {ℓ} {S : Type ℓ} (signing_with : GroupSigning S) where
  abbrev pub sign_as :
      Option (List ℕ) → Option (List ℕ) → List ℕ → Result SignError (GroupSignature S)
  sign_as (some key) auth payload = ok (admin_signature (signing_with.sign key payload))
  sign_as none (some auth) payload = do
    s ← ok_or (signing_with.sub_key_sign payload auth) signing
    ok (member_signature s)
  sign_as none none payload = err no_key_or_auth_data

  -- `GroupSwarmAuth::sign`
  unfoldable pub group_sign : Text → List GroupInfo → List ℕ → Result SignError (GroupSignature S)
  unfolding find_group
  group_sign id groups payload = do
    g ← ok_or (find_group id groups) group_not_found
    sign_as g.sec_key g.auth_data payload

  -- `GroupSwarmAuth::encrypt`
  unfoldable pub group_encrypt : List ℕ → Option Text → Result SignError (List ℕ)
  group_encrypt payload (some other) = err encryption_for_others
  group_encrypt payload none = ok_or (signing_with.encrypt_message payload) encrypting

-- `StoreMessageRequest`, and of `RetrieveMessageRequest` what is signed or signs.
pub record StoreMessageRequest {ℓ} (S : Type ℓ) : Type ℓ where
  pub dst_pub_key : Text
  pub data_b64 : Text
  pub ttl_mills : ℕ
  pub timestamp_mills : ℕ
  pub namespace : Option ℤ
  pub dst_pub_key_ed25519 : Option Text
  pub signature : S

pub record SignedRetrieve {ℓ} (S : Type ℓ) : Type ℓ where
  pub session_id : Text
  pub namespace : ℤ
  pub timestamp : ℕ
  pub signature : S

abbrev pub stored_namespace : MessageNamespace → Option ℤ
stored_namespace user_messages = none
stored_namespace ns = some (namespace_number ns)

module _ {ℓ} {S : Type ℓ} (sign : List ℕ → Result SignError S) where
  -- `StoreMessageRequest::new`
  unfoldable pub new_store :
      (List ℕ → Text)
      → MessageNamespace
      → List ℕ
      → ℕ
      → Text
      → Option Text
      → ℕ
      → Result SignError (StoreMessageRequest S)
  unfolding sig_payload
  new_store base64 ns payload now dst dst_ed25519 ttl = do
    signature ← sign (sig_payload (codes "store") ns now)
    ensure (ltb ttl (2 ^ 64)) ttl_too_large
    ok (record {
      dst_pub_key = dst;
      data_b64 = base64 payload;
      ttl_mills = ttl;
      timestamp_mills = now;
      namespace = stored_namespace ns;
      dst_pub_key_ed25519 = dst_ed25519;
      signature = signature;
    })

  -- `RetrieveMessageRequest::new`
  unfoldable pub new_retrieve : MessageNamespace → Text → ℕ → Result SignError (SignedRetrieve S)
  unfolding sig_payload
  new_retrieve ns id now = do
    signature ← sign (sig_payload (codes "retrieve") ns now)
    ok (record {
      session_id = id;
      namespace = namespace_number ns;
      timestamp = now;
      signature = signature;
    })
