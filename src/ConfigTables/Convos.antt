-- ===== src/ConfigTables/Convos.antt =====
-- The rows of conversations, with libsession-ui-core/src/config/convo_info.rs, and the rows of the
-- user's profile and of a group's info, of which there is one each.
use session_cli.Base.{
  ℕ, ◌≡◌, refl, ◌↔◌, Bool, true, false, ◌&&◌, ◌||◌, List, [], ◌∷◌, Option, none, some, Result, ok,
  err, arith, if◌then◌else◌, Option-cases, Bool-cases, inl, inr,
}
use session_cli.Base.Assoc.{lookup, replace}
use session_cli.Base.Int.{ℤ}
use session_cli.Base.Text.{Text, codes, text_eq, text_eq_iff}
use session_cli.ConfigTables.{
  ConfigError, invalid_id, constraint_failed, missing_group_id, SavedRows, save_rows, newest,
  listed, insert_items, keep_rows,
}
use session_cli.ConfigTables.Groups.{like_prefix}
use session_cli.ConfigTables.Rows.{lookup-save_rows-listed}

-- `ConvoInfoType`
pub data ConvoInfoType : Type 0 where
  one_to_one group community legacy : ConvoInfoType

unfoldable pub same_convo_type : ConvoInfoType → ConvoInfoType → Bool
same_convo_type one_to_one one_to_one = true
same_convo_type group group = true
same_convo_type community community = true
same_convo_type legacy legacy = true
same_convo_type _ _ = false

-- What a variant holds; the id where its texts are one. A time of 0 is none.
pub record ConvoInfo : Type 0 where
  pub convo_id : Option Text
  pub last_read : Option ℕ
  pub unread : Bool

pub data ConvoInfoItem : Type 0 where
  of_one_to_one of_group of_community of_legacy : ConvoInfo → ConvoInfoItem

unfoldable pub info_of : ConvoInfoItem → ConvoInfo
info_of (of_one_to_one i) = i
info_of (of_group i) = i
info_of (of_community i) = i
info_of (of_legacy i) = i

unfoldable pub item_type : ConvoInfoItem → ConvoInfoType
item_type (of_one_to_one _) = one_to_one
item_type (of_group _) = group
item_type (of_community _) = community
item_type (of_legacy _) = legacy

abbrev pub ConvoKey : Type 0
ConvoKey = Text × ConvoInfoType

abbrev pub same_convo : ConvoKey → ConvoKey → Bool
same_convo (i, s) (j, t) = text_eq i j && same_convo_type s t

pub record ConvoRow : Type 0 where
  pub row_last_read : Option ℕ
  pub row_unread : Bool

abbrev pub ConvoTable : Type 0
ConvoTable = List (ConvoKey × ConvoRow)

-- The checks `valid_group_id`, `valid_user_id` and `valid_community_id`.
unfoldable pub convo_fits : ConvoKey → Bool
convo_fits (id, one_to_one) = like_prefix (codes "05") id
convo_fits (id, group) = like_prefix (codes "03") id
convo_fits (id, community) = like_prefix (codes "http://") id || like_prefix (codes "https://") id
convo_fits (id, legacy) = true

unfoldable pub convo_row : ConvoInfoItem → Result ConfigError (Option (ConvoKey × ConvoRow))
unfolding info_of item_type convo_fits
convo_row c = elim (info_of c).convo_id [
  | none ↦ err invalid_id
  | some id ↦
      if convo_fits (id, item_type c)
      then ok (
          some (
            (id, item_type c),
            record { row_last_read = (info_of c).last_read; row_unread = (info_of c).unread },
          ))
      else err constraint_failed
]

abbrev pub convo_key : ConvoInfoItem → Option ConvoKey
convo_key c = elim (info_of c).convo_id [ none ↦ none | some id ↦ some (id, item_type c) ]

-- An item without an id of a type.
unfoldable pub null_of_type : ConvoInfoType → List ConvoInfoItem → Bool
unfolding info_of item_type
null_of_type t [] = false
null_of_type t (c ∷ items) =
    let rest = null_of_type t items in
    elim (info_of c).convo_id [ none ↦ same_convo_type (item_type c) t || rest | some _ ↦ rest ]

-- `(id, type) NOT IN …` is NULL, and the row kept, where an item of that type has no id.
unfoldable pub convo_kept : List ConvoInfoItem → ConvoKey → Bool
convo_kept items (id, t) = listed same_convo convo_key items (id, t) || null_of_type t items

-- `SaveAsRows for ConvoInfoVolatileConfig`
unfoldable pub save_convos : List ConvoInfoItem → ConvoTable → SavedRows ConvoTable
unfolding convo_kept
save_convos items table = save_rows same_convo convo_row (convo_kept items) items table

same_convo_iff : (a b : ConvoKey) → (same_convo a b ≡ true) ↔ (a ≡ b)
unfolding same_convo_type
same_convo_iff (i, s) (j, t) = ground (arith, text_eq_iff i j)

keyed_convo :
    (c : ConvoInfoItem) (k : ConvoKey) (v : ConvoRow)
    → convo_row c ≡ ok (some (k, v))
    → convo_key c ≡ some k
unfolding convo_row
keyed_convo c k v e = elim (Option-cases (info_of c).convo_id) [
  | inl n ↦ ground arith
  | inr (id, n) ↦ ground arith
]

unkeyed_convo : (c : ConvoInfoItem) → convo_row c ≡ ok none → convo_key c ≡ none
unfolding convo_row
unkeyed_convo c e = ground arith

null_of_type-saved :
    (t : ConvoInfoType) (items : List ConvoInfoItem) (table : ConvoTable)
    → (insert_items same_convo convo_row items table).result ≡ ok tt
    → null_of_type t items ≡ false
unfolding insert_items null_of_type convo_row
null_of_type-saved t [] table h = refl
null_of_type-saved t (c ∷ items) table h = elim (Option-cases (info_of c).convo_id) [
  | inl n ↦ ground arith
  | inr (id, n) ↦ elim (Bool-cases (convo_fits (id, item_type c))) [
    | inr f ↦ ground arith
    | inl f ↦ ground (
      arith,
      null_of_type-saved t items (
          replace same_convo (id, item_type c)
            (record { row_last_read = (info_of c).last_read; row_unread = (info_of c).unread })
            table),
    )
  ]
]

-- After the conversations are saved without an error, the row of every id and type is the one of the
-- last conversation of the config with them, and others have none, whatever was in the table before.
pub lookup-save_convos :
    (items : List ConvoInfoItem) (table : ConvoTable) (key : ConvoKey)
    → (save_convos items table).result ≡ ok tt
    → lookup same_convo key (save_convos items table).table ≡ newest same_convo convo_row items key
unfolding save_convos convo_kept save_rows
lookup-save_convos items table (id, t) h =
    lookup-save_rows-listed same_convo same_convo_iff convo_row convo_key keyed_convo unkeyed_convo
      (convo_kept items) (id, t) items table h
      (ground (arith, null_of_type-saved t items (keep_rows (convo_kept items) table) h))

-- `UserProfileConfig` and the row with the id 1
pub record UserProfile : Type 0 where
  pub accepts_blinded_msgreqs : Option Bool
  pub profile_name : Text
  pub nts_expiry : Option ℕ
  pub nts_priority : ℤ
  pub profile_pic : Option Text

abbrev pub ProfileTable : Type 0
ProfileTable = Option UserProfile

-- `SaveAsRows for UserProfileConfig`
unfoldable pub save_user_profile : UserProfile → ProfileTable → SavedRows ProfileTable
save_user_profile p table = record { table = some p; result = ok tt }

pub record GroupInfoRow : Type 0 where
  pub info_name : Text
  pub description : Text
  pub delete_attach_before : Option ℕ
  pub delete_before : Option ℕ
  pub expiry_timer : ℤ
  pub created : Option ℕ
  pub info_profile_pic : Option Text

-- `SaveAsRows for GroupInfoConfig`
unfoldable pub save_group_info :
    Option Text → GroupInfoRow → List (Text × GroupInfoRow) → SavedRows (List (Text × GroupInfoRow))
save_group_info none info table = record { table = table; result = err missing_group_id }
save_group_info (some id) info table = record {
  table = replace text_eq id info table;
  result = ok tt;
}
