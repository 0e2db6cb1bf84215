-- ===== src/ConfigTables/Contacts.antt =====
-- The rows of contacts, of the user's profile and of conversations.
use session_cli.Base.{◌≡◌, refl, Bool, List, Option, none, some, Result, ok, err, arith}
use session_cli.Base.Assoc.{lookup}
use session_cli.Base.Int.{ℤ}
use session_cli.Base.Text.{Text, text_eq, text_eq_iff}
use session_cli.ConfigTables.{ConfigError, invalid_id, SavedRows, save_rows, newest, listed}
use session_cli.ConfigTables.Rows.{lookup-save_rows-listed}

-- `Contact`; its session id where the text of the object is one.
pub record Contact : Type 0 where
  pub session_id : Option Text
  pub name : Text
  pub nickname : Text
  pub approved : Bool
  pub approved_me : Bool
  pub blocked : Bool
  pub profile_pic : Option Text
  pub priority : ℤ
  pub notification_mode : Option Text

-- The columns besides the key.
pub record ContactRow : Type 0 where
  pub row_name : Text
  pub row_nickname : Text
  pub row_approved : Bool
  pub row_approved_me : Bool
  pub row_blocked : Bool
  pub row_profile_picture : Option Text
  pub row_priority : ℤ
  pub row_notification_mode : Option Text

abbrev pub ContactTable : Type 0
ContactTable = List (Text × ContactRow)

abbrev pub contact_columns : Contact → ContactRow
contact_columns c = record {
  row_name = c.name;
  row_nickname = c.nickname;
  row_approved = c.approved;
  row_approved_me = c.approved_me;
  row_blocked = c.blocked;
  row_profile_picture = c.profile_pic;
  row_priority = c.priority;
  row_notification_mode = c.notification_mode;
}

unfoldable pub contact_row : Contact → Result ConfigError (Option (Text × ContactRow))
contact_row c = elim c.session_id [
  | none ↦ err invalid_id
  | some id ↦ ok (some (id, contact_columns c))
]

abbrev pub contact_id : Contact → Option Text
contact_id c = c.session_id

-- `SaveAsRows for ContactsConfig`
unfoldable pub save_contacts : List Contact → ContactTable → SavedRows ContactTable
save_contacts contacts table =
    save_rows text_eq contact_row (listed text_eq contact_id contacts) contacts table

keyed_contact :
    (c : Contact) (k : Text) (v : ContactRow)
    → contact_row c ≡ ok (some (k, v))
    → contact_id c ≡ some k
unfolding contact_row
keyed_contact c k v e = ground arith

unkeyed_contact : (c : Contact) → contact_row c ≡ ok none → contact_id c ≡ none
unfolding contact_row
unkeyed_contact c e = ground arith

-- After the contacts are saved without an error, the row of every session id is the one of the last
-- contact of the config with that id, and an id that the config has not has no row, whatever was in
-- the table before.
pub lookup-save_contacts :
    (contacts : List Contact) (table : ContactTable) (id : Text)
    → (save_contacts contacts table).result ≡ ok tt
    → lookup text_eq id (save_contacts contacts table).table
      ≡ newest text_eq contact_row contacts id
unfolding save_contacts
lookup-save_contacts contacts table id h =
    lookup-save_rows-listed text_eq text_eq_iff contact_row contact_id keyed_contact unkeyed_contact
      (listed text_eq contact_id contacts) id contacts table h refl
