-- ===== src/SessionId.antt =====
-- libsession-ui-core/src/session_id.rs: the ids of accounts and groups, as keys with a prefix, and
-- the enumerations of them. A C string is its text; `OnceLock` is an option, as in Key.
-- The four types that `define_id_type!` makes differ in their prefix: one type has the prefix as an
-- argument of its functions. All their keys have 32 bytes.
pub mod Parse
pub mod Convert
mod Tests
use session_cli.Base.{
  ℕ, zero, suc, ◌≡◌, Bool, true, false, ◌&&◌, List, [], ◌∷◌, ◌++◌, Option, none, some, Result, ok,
  err, ok_or, ◌>>=◌, ◌>>◌, ensure, length, drop, ◌==◌,
}
use session_cli.Base.Text.{Text, codes, text_eq}
use session_cli.Key.{HexCodec, Key, from_binary, key_eq, hex_text}

abbrev pub key_len : ℕ
key_len = 32

pub data IdError : Type 0 where
  expecting_prefix decoding_hex invalid_id : IdError

-- `define_id_type!`
pub record IdType : Type 0 where
  pub backing_key : Key
  pub display : Option Text

abbrev pub new : Key → IdType
new k = record { backing_key = k; display = none }

-- `OnceLock` is compared by what it holds.
abbrev pub display_eq : Option Text → Option Text → Bool
display_eq (some s) (some t) = text_eq s t
display_eq none none = true
display_eq _ _ = false

-- The derived `PartialEq` compares both fields.
unfoldable pub id_eq : IdType → IdType → Bool
id_eq a b = key_eq a.backing_key b.backing_key && display_eq a.display b.display

-- `str::starts_with`
unfoldable pub starts_with : Text → Text → Bool
starts_with [] s = true
starts_with (p ∷ ps) [] = false
starts_with (p ∷ ps) (c ∷ s) = p == c && starts_with ps s

-- The prefixes of the four types.
pub data Kind : Type 0 where
  individual group blind15 blind25 : Kind

abbrev pub prefix : Kind → Text
prefix individual = codes "05"
prefix group = codes "03"
prefix blind15 = codes "15"
prefix blind25 = codes "25"

module _ (codec : HexCodec) where
  -- `as_str`, `as_c_str`, `Display`, `AsRef<str>`
  unfoldable pub as_str : Kind → IdType → Text
  unfolding hex_text
  as_str kind id = elim id.display [
    | some d ↦ d
    | none ↦ prefix kind ++ hex_text codec id.backing_key
  ]

  -- `FromStr`
  unfoldable pub from_str : Kind → Text → Result IdError IdType
  from_str kind s = do
    ensure (starts_with (prefix kind) s) expecting_prefix
    backing_key ← ok_or (codec.decode_to_slice (drop (length (prefix kind)) s) key_len) decoding_hex
    ok (record { backing_key = from_binary backing_key; display = some s })

-- `define_id_combinations!`: `SessionID`
pub data SessionId : Type 0 where
  of_kind : Kind → IdType → SessionId

-- `IndividualOrGroupID` and `IndividualOrBlindedID`
pub data IndividualOrGroupId : Type 0 where
  individual group : IdType → IndividualOrGroupId

pub data IndividualOrBlindedId : Type 0 where
  individual blind15 blind25 : IdType → IndividualOrBlindedId

abbrev pub all_kinds : List Kind
all_kinds = Kind.individual ∷ Kind.group ∷ Kind.blind15 ∷ Kind.blind25 ∷ []

module _ (codec : HexCodec) where
  unfoldable pub session_id_as_str : SessionId → Text
  session_id_as_str (of_kind kind id) = as_str codec kind id

  -- The variants are tried in the order in which the enumeration lists them.
  unfoldable pub first_of_kinds : List Kind → Text → Result IdError SessionId
  first_of_kinds [] s = err invalid_id
  first_of_kinds (k ∷ ks) s =
      let rest = first_of_kinds ks s in
      elim (from_str codec k s) [ ok id ↦ ok (of_kind k id) | err _ ↦ rest ]

  unfoldable pub session_id_from_str : Text → Result IdError SessionId
  unfolding first_of_kinds
  session_id_from_str = first_of_kinds all_kinds

-- `define_session_id_conversion!`, with `None` for the unit error
unfoldable pub group_to_session_id : IndividualOrGroupId → SessionId
group_to_session_id (IndividualOrGroupId.individual id) = of_kind Kind.individual id
group_to_session_id (IndividualOrGroupId.group id) = of_kind Kind.group id

unfoldable pub group_try_from : SessionId → Option IndividualOrGroupId
group_try_from (of_kind Kind.individual id) = some (IndividualOrGroupId.individual id)
group_try_from (of_kind Kind.group id) = some (IndividualOrGroupId.group id)
group_try_from _ = none

unfoldable pub blinded_to_session_id : IndividualOrBlindedId → SessionId
blinded_to_session_id (IndividualOrBlindedId.individual id) = of_kind Kind.individual id
blinded_to_session_id (IndividualOrBlindedId.blind15 id) = of_kind Kind.blind15 id
blinded_to_session_id (IndividualOrBlindedId.blind25 id) = of_kind Kind.blind25 id

unfoldable pub blinded_try_from : SessionId → Option IndividualOrBlindedId
blinded_try_from (of_kind Kind.individual id) = some (IndividualOrBlindedId.individual id)
blinded_try_from (of_kind Kind.blind15 id) = some (IndividualOrBlindedId.blind15 id)
blinded_try_from (of_kind Kind.blind25 id) = some (IndividualOrBlindedId.blind25 id)
blinded_try_from _ = none
