-- ===== src/ConfigTables/Groups/Saved.antt =====
-- What the tables of groups and members hold after a save.
use session_cli.Base.{
  ◌≡◌, refl, ◌↔◌, true, false, List, [], ◌∷◌, none, some, ok, arith, Bool-cases, inl, inr,
  if◌then◌else◌,
}
use session_cli.Base.Assoc.{lookup}
use session_cli.Base.Text.{Text, text_eq, text_eq_iff}
use session_cli.ConfigTables.{newest, listed}
use session_cli.ConfigTables.Rows.{lookup-save_rows, lookup-save_rows-listed}
use session_cli.ConfigTables.Groups.{
  GroupType, same_type, Group, of_legacy, of_group, of_community, group_id_of, type_of, GroupKey,
  same_group, GroupRow, group_row, group_key, GroupTable, save_groups, Member, MemberRow, MemberKey,
  same_member, member_row, member_key, MemberTable, member_kept, save_members,
}

same_type_iff : (s t : GroupType) → (same_type s t ≡ true) ↔ (s ≡ t)
unfolding same_type
same_type_iff s t = ground arith

same_group_iff : (a b : GroupKey) → (same_group a b ≡ true) ↔ (a ≡ b)
same_group_iff (i, s) (j, t) = ground (arith, text_eq_iff i j, same_type_iff s t)

same_member_iff : (a b : MemberKey) → (same_member a b ≡ true) ↔ (a ≡ b)
same_member_iff (g, m) (h, n) = ground (arith, text_eq_iff g h, text_eq_iff m n)

keyed_group :
    (g : Group) (k : GroupKey) (v : GroupRow)
    → group_row g ≡ ok (some (k, v))
    → group_key g ≡ some k
unfolding group_row group_key group_id_of type_of
keyed_group of_legacy k v e = ground arith
keyed_group (of_group g) k v e = ground arith
keyed_group (of_community c) k v e = ground arith

unkeyed_group : (g : Group) → group_row g ≡ ok none → group_key g ≡ none
unfolding group_row group_key group_id_of type_of
unkeyed_group of_legacy e = refl
unkeyed_group (of_group g) e = ground arith
unkeyed_group (of_community c) e = ground arith

-- After the groups are saved without an error, the row of every id and type is the one of the last
-- group or community of the config with them, and an id and type that the config has not have no
-- row, whatever was in the table before.
pub lookup-save_groups :
    (groups : List Group) (table : GroupTable) (key : GroupKey)
    → (save_groups groups table).result ≡ ok tt
    → lookup same_group key (save_groups groups table).table
      ≡ newest same_group group_row groups key
unfolding save_groups
lookup-save_groups groups table key h =
    lookup-save_rows-listed same_group same_group_iff group_row group_key keyed_group unkeyed_group
      (listed same_group group_key groups) key groups table h refl

keyed_member :
    (id : Text) (m : Member) (k : MemberKey) (v : MemberRow)
    → member_row id m ≡ ok (some (k, v))
    → member_key id m ≡ some k
unfolding member_row
keyed_member id m k v e = ground arith

unkeyed_member : (id : Text) (m : Member) → member_row id m ≡ ok none → member_key id m ≡ none
unfolding member_row
unkeyed_member id m e = ground arith

newest-member_row :
    (id other : Text) (n : Text) (members : List Member)
    → text_eq other id ≡ false
    → newest same_member (member_row id) members (other, n) ≡ none
unfolding newest member_row
newest-member_row id other n [] d = refl
newest-member_row id other n (m ∷ members) d =
    ground
      (arith, newest-member_row id other n members d, text_eq_iff id other, text_eq_iff other id)

-- After the members of a group are saved without an error, the row of every session id in that group
-- is the one of the last member of the config with it, or none where there is no such member, and
-- the rows of other groups are what they were.
pub lookup-save_members :
    (id : Text) (members : List Member) (table : MemberTable) (key : MemberKey)
    → (save_members (some id) members table).result ≡ ok tt
    → lookup same_member key (save_members (some id) members table).table ≡ (
        if text_eq (key.0) id
        then newest same_member (member_row id) members key
        else lookup same_member key table)
unfolding save_members member_kept
lookup-save_members id members table (g, n) h = elim (Bool-cases (text_eq g id)) [
  | inl e ↦ rw e (
      lookup-save_rows-listed same_member same_member_iff (member_row id) (member_key id)
        (keyed_member id) (unkeyed_member id) (member_kept id members) (g, n) members table h
        (rw e refl))
  | inr e ↦ ground (
    arith,
    lookup-save_rows same_member same_member_iff (member_row id) (member_kept id members) (g, n)
        members table h,
    newest-member_row id g n members e,
  )
]
