-- ===== src/ConfigTables/Groups.antt =====
-- The rows of the user's groups, and of the members of a group.
pub mod Saved
use session_cli.Base.{
  ℕ, Bool, true, false, not, ◌&&◌, ◌||◌, List, [], ◌∷◌, Option, none, some, Result, ok, err, ok_or,
  ◌>>=◌, ◌>>◌, ensure, map, ◌==◌, if◌then◌else◌,
}
use session_cli.Base.Int.{ℤ}
use session_cli.Base.Text.{Text, codes, text_eq, to_ascii_lowercase}
use session_cli.SessionId.{starts_with}
use session_cli.ConfigTables.{
  ConfigError, invalid_id, constraint_failed, missing_group_id, SavedRows, save_rows, listed,
  keep_rows,
}

-- `GroupType`
pub data GroupType : Type 0 where
  legacy group community : GroupType

unfoldable pub same_type : GroupType → GroupType → Bool
same_type legacy legacy = true
same_type group group = true
same_type community community = true
same_type _ _ = false

-- `GroupInfo` and `CommunityInfo`, as they are read; the ids where the texts of the object are ids.
-- A time in milliseconds is `none` where it is 0.
pub record GroupInfo : Type 0 where
  pub group_id : Option Text
  pub name : Text
  pub invited : Bool
  pub is_kicked : Bool
  pub joined_at : Option ℕ
  pub mute_until : Option ℕ
  pub notification_mode : Option Text
  pub priority : ℤ

pub record CommunityInfo : Type 0 where
  pub community_id : Option Text
  pub invited : Bool
  pub joined_at : Option ℕ
  pub mute_until : Option ℕ
  pub notification_mode : Option Text
  pub priority : ℤ

pub data Group : Type 0 where
  of_legacy : Group
  of_group : GroupInfo → Group
  of_community : CommunityInfo → Group

-- `Group::id` and `Group::group_type`
unfoldable pub group_id_of : Group → Option Text
group_id_of of_legacy = none
group_id_of (of_group g) = g.group_id
group_id_of (of_community c) = c.community_id

unfoldable pub type_of : Group → GroupType
type_of of_legacy = legacy
type_of (of_group g) = group
type_of (of_community c) = community

abbrev pub GroupKey : Type 0
GroupKey = Text × GroupType

abbrev pub same_group : GroupKey → GroupKey → Bool
same_group (i, s) (j, t) = text_eq i j && same_type s t

-- The columns besides the key.
pub record GroupRow : Type 0 where
  pub row_invited : Bool
  pub row_joined_at : Option ℕ
  pub row_mute_until : Option ℕ
  pub row_name : Option Text
  pub row_notification_mode : Option Text
  pub row_priority : ℤ
  pub row_is_kicked : Option Bool

-- SQLite's `LIKE 'prefix%'`, which ignores the case of ASCII letters
abbrev pub like_prefix : Text → Text → Bool
like_prefix prefix s = starts_with prefix (map to_ascii_lowercase s)

-- The checks `valid_group_data` and `valid_community_data`.
unfoldable pub group_fits : GroupKey → GroupRow → Bool
group_fits (id, group) r =
    like_prefix (codes "03") id && elim r.row_is_kicked [ some _ ↦ true | none ↦ false ]
group_fits (id, community) r = like_prefix (codes "http://") id || like_prefix (codes "https://") id
group_fits (id, legacy) r = true

abbrev pub checked_group : GroupKey → GroupRow → Result ConfigError (Option (GroupKey × GroupRow))
checked_group key r = if group_fits key r then ok (some (key, r)) else err constraint_failed

unfoldable pub group_row : Group → Result ConfigError (Option (GroupKey × GroupRow))
unfolding group_fits
group_row of_legacy = ok none
group_row (of_group g) = elim g.group_id [
  | none ↦ err invalid_id
  | some id ↦
      checked_group (id, group)
        (record {
          row_invited = g.invited;
          row_joined_at = g.joined_at;
          row_mute_until = g.mute_until;
          row_name = some g.name;
          row_notification_mode = g.notification_mode;
          row_priority = g.priority;
          row_is_kicked = some g.is_kicked;
        })
]
group_row (of_community c) = elim c.community_id [
  | none ↦ err invalid_id
  | some id ↦
      checked_group (id, community)
        (record {
          row_invited = c.invited;
          row_joined_at = c.joined_at;
          row_mute_until = c.mute_until;
          row_name = none;
          row_notification_mode = c.notification_mode;
          row_priority = c.priority;
          row_is_kicked = none;
        })
]

-- `filter_map(|g| Some((g.id()?, g.group_type())))`
unfoldable pub group_key : Group → Option GroupKey
unfolding group_id_of type_of
group_key g = elim (group_id_of g) [ none ↦ none | some id ↦ some (id, type_of g) ]

abbrev pub GroupTable : Type 0
GroupTable = List (GroupKey × GroupRow)

-- `SaveAsRows for UserGroupsConfig`
unfoldable pub save_groups : List Group → GroupTable → SavedRows GroupTable
save_groups groups table =
    save_rows same_group group_row (listed same_group group_key groups) groups table

pub record Member : Type 0 where
  pub session_id : Text
  pub admin : Bool
  pub name : Text
  pub profile_pic : Option Text
  pub supplement : Bool
  pub status : Option Text

pub record MemberRow : Type 0 where
  pub member_admin : Bool
  pub member_name : Text
  pub member_profile_picture : Option Text
  pub member_supplement : Bool
  pub member_status : Text

abbrev pub MemberKey : Type 0
MemberKey = Text × Text

abbrev pub same_member : MemberKey → MemberKey → Bool
same_member (g, m) (h, n) = text_eq g h && text_eq m n

-- The column `status` is NOT NULL.
unfoldable pub member_row : Text → Member → Result ConfigError (Option (MemberKey × MemberRow))
member_row id m = elim m.status [
  | none ↦ err constraint_failed
  | some status ↦ ok (
      some (
        (id, m.session_id),
        record {
          member_admin = m.admin;
          member_name = m.name;
          member_profile_picture = m.profile_pic;
          member_supplement = m.supplement;
          member_status = status;
        },
      ))
]

abbrev pub member_key : Text → Member → Option MemberKey
member_key id m = some (id, m.session_id)

abbrev pub MemberTable : Type 0
MemberTable = List (MemberKey × MemberRow)

-- `WHERE group_id = $id AND session_id NOT IN (…)` is deleted.
unfoldable pub member_kept : Text → List Member → MemberKey → Bool
member_kept id members key =
    not (text_eq (key.0) id) || listed same_member (member_key id) members key

-- `SaveAsRows for GroupMemberConfig`
unfoldable pub save_members : Option Text → List Member → MemberTable → SavedRows MemberTable
unfolding member_kept
save_members none members table = record { table = table; result = err missing_group_id }
save_members (some id) members table =
    save_rows same_member (member_row id) (member_kept id members) members table
