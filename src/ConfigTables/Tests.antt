-- ===== src/ConfigTables/Tests.antt =====
-- Witnesses for the theorems on the tables of configs.
use session_cli.Base.{ℕ, ◌≡◌, refl, true, false, [], ◌∷◌, none, some}
use session_cli.Base.Assoc.{lookup, replace}
use session_cli.Base.Int.{pos}
use session_cli.Base.Text.{codes, text_eq, to_ascii_lowercase}
use session_cli.SessionId.{starts_with}
use session_cli.ConfigTables.{save_rows, insert_items, newest}
use session_cli.ConfigTables.Groups.{
  of_legacy, of_group, GroupInfo, GroupRow, GroupTable, group, same_type, same_group, group_row,
  group_fits, save_groups, Member, MemberRow, MemberTable,
}
use session_cli.ConfigTables.Groups.Saved.{lookup-save_groups}
use session_cli.ConfigTables.Dumps.{ConfigOps, GroupTables}

abbrev chess : GroupInfo
chess = record {
  group_id = some (codes "03aa");
  name = codes "chess";
  invited = false;
  is_kicked = false;
  joined_at = some 5;
  mute_until = none;
  notification_mode = none;
  priority = pos 0;
}

abbrev chess_row : GroupRow
chess_row = record {
  row_invited = false;
  row_joined_at = some 5;
  row_mute_until = none;
  row_name = some (codes "chess");
  row_notification_mode = none;
  row_priority = pos 0;
  row_is_kicked = some false;
}

-- A group that was left, and an old row of the one that stays.
abbrev old_groups : GroupTable
old_groups =
    ((codes "03bb", group), chess_row)
    ∷ ((codes "03aa", group), record chess_row { row_invited = true })
    ∷ []

lookup-save_groups_example :
    lookup same_group
      (codes "03aa", group)
      (save_groups (of_legacy ∷ of_group chess ∷ []) old_groups).table
    ≡ some chess_row
unfolding save_groups insert_items newest group_row group_fits starts_with text_eq same_type lookup
    replace save_rows to_ascii_lowercase
lookup-save_groups_example =
    lookup-save_groups (of_legacy ∷ of_group chess ∷ []) old_groups (codes "03aa", group) refl

abbrev ann : Member
ann = record {
  session_id = codes "05aa";
  admin = true;
  name = codes "ann";
  profile_pic = none;
  supplement = false;
  status = some (codes "joined");
}

abbrev ann_row : MemberRow
ann_row = record {
  member_admin = true;
  member_name = codes "ann";
  member_profile_picture = none;
  member_supplement = false;
  member_status = codes "joined";
}

-- One row of this group, of a member who is gone, and one of another group.
abbrev old_members : MemberTable
old_members = ((codes "03aa", codes "05cc"), ann_row) ∷ ((codes "03bb", codes "05cc"), ann_row) ∷ []

-- A config of one byte that always needs a dump.
abbrev byte_config : ConfigOps ℕ
byte_config = record {
  config_type_name = codes "C";
  needs_dump = λ c. true;
  dump = λ c. (some (c ∷ []), c);
}

abbrev group_tables : GroupTables ℕ
group_tables = record { configs = []; infos = (codes "03bb", 1) ∷ []; members = old_members }
