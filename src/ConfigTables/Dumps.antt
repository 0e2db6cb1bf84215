-- ===== src/ConfigTables/Dumps.antt =====
-- The dumps of config objects, and the removal of a group's configs.
use session_cli.Base.{
  ℕ, ◌≡◌, ◌↔◌, Bool, true, not, List, [], Option, none, some, Result, ok, err, arith, if◌then◌else◌,
}
use session_cli.Base.Assoc.{lookup, replace, lookup-replace}
use session_cli.Base.Text.{Text, text_eq, text_eq_iff}
use session_cli.ConfigTables.{ConfigError, dump_is_null, SavedRows, keep_rows}
use session_cli.ConfigTables.Rows.{lookup-keep_rows}
use session_cli.ConfigTables.Groups.{MemberTable, same_member}

-- The columns of `configs` besides the key: the type and the id.
pub record DumpRow : Type 0 where
  pub dump : Option (List ℕ)
  pub updated_at : ℕ

abbrev pub DumpTable : Type 0
DumpTable = List ((Text × Text) × DumpRow)

-- `coalesce($id, '')` and `unwrap_or_default`
abbrev pub id_text : Option Text → Text
id_text none = []
id_text (some id) = id

unfoldable pub save_config_dump_raw :
    Text → Option Text → Option (List ℕ) → ℕ → DumpTable → DumpTable
save_config_dump_raw config_type id dump timestamp =
    replace same_member (config_type, id_text id) (record { dump = dump; updated_at = timestamp })

-- A dump that is NULL cannot be read as bytes.
abbrev pub dump_of : Option DumpRow → Result ConfigError (Option (List ℕ))
dump_of none = ok none
dump_of (some row) = elim row.dump [ some d ↦ ok (some d) | none ↦ err dump_is_null ]

unfoldable pub get_config_dump :
    Text → Option Text → DumpTable → Result ConfigError (Option (List ℕ))
get_config_dump config_type id table = dump_of (lookup same_member (config_type, id_text id) table)

-- What the program uses of a config object of libsession. `dump` also marks the object as dumped.
pub record ConfigOps {ℓ} (C : Type ℓ) : Type ℓ where
  pub config_type_name : Text
  pub needs_dump : C → Bool
  pub dump : C → Option (List ℕ) × C

-- The object, the dumps and the rows after a save, and its result.
pub record SavedConfig {ℓ κ} (C : Type ℓ) (T : Type κ) : Type (ℓ ⊔ κ) where
  pub config : C
  pub dumps : DumpTable
  pub rows : T
  pub result : Result ConfigError (Unit {0})

module _ {ℓ} {C : Type ℓ} (ops : ConfigOps C) where
  unfoldable pub save_config : Option Text → ℕ → C → DumpTable → C × DumpTable
  unfolding save_config_dump_raw
  save_config id timestamp c dumps =
      let (d, after) = ops.dump c in
      (after, save_config_dump_raw ops.config_type_name id d timestamp dumps)

  unfoldable pub save_config_dump_and_rows {κ} :
      {T : Type κ}
      → (C → Option Text → T → SavedRows T)
      → Option Text
      → ℕ
      → C
      → DumpTable
      → T
      → SavedConfig C T
  unfolding save_config
  save_config_dump_and_rows save_as_rows id timestamp c dumps rows =
      if ops.needs_dump c
      then (let (after, saved) = save_config id timestamp c dumps in
          let written = save_as_rows after id rows in
          record { config = after; dumps = saved; rows = written.table; result = written.result })
      else record { config = c; dumps = dumps; rows = rows; result = ok tt }

-- The tables that `remove_group_configs` clears; the info rows are of any type.
pub record GroupTables {ℓ} (I : Type ℓ) : Type ℓ where
  pub configs : DumpTable
  pub infos : List (Text × I)
  pub members : MemberTable

-- The savepoint takes effect as a whole, or is rolled back when a statement or the commit fails.
unfoldable pub remove_group_configs {ℓ κ} :
    {I : Type ℓ} {F : Type κ}
    → Option F
    → Text
    → GroupTables I
    → GroupTables I × Result F (Unit {0})
remove_group_configs (some fault) id t = (t, err fault)
remove_group_configs none id t = (
  record {
    configs = keep_rows (λ key. not (text_eq (key.1) id)) t.configs;
    infos = keep_rows (λ key. not (text_eq key id)) t.infos;
    members = keep_rows (λ key. not (text_eq (key.0) id)) t.members;
  },
  ok tt,
)

same_pair_iff : (a b : Text × Text) → (same_member a b ≡ true) ↔ (a ≡ b)
same_pair_iff (g, m) (h, n) = ground (arith, text_eq_iff g h, text_eq_iff m n)

-- After a config that needs it is saved with its rows, the dump of its type and id is the one it was
-- just dumped to, or cannot be read where it dumped to nothing; the dump of every other type or id
-- is what it was. This holds also where the rows fail.
pub get_config_dump-save {ℓ κ} :
    {C : Type ℓ} {T : Type κ} (ops : ConfigOps C) (save_as_rows : C → Option Text → T → SavedRows T)
    (id : Option Text) (timestamp : ℕ) (c : C) (dumps : DumpTable) (rows : T) (config_type : Text)
    (other : Option Text)
    → ops.needs_dump c ≡ true
    → get_config_dump config_type other
        (save_config_dump_and_rows ops save_as_rows id timestamp c dumps rows).dumps
      ≡ (if same_member (ops.config_type_name, id_text id) (config_type, id_text other)
          then dump_of (some (record { dump = (ops.dump c).0; updated_at = timestamp }))
          else get_config_dump config_type other dumps)
unfolding save_config_dump_and_rows save_config save_config_dump_raw get_config_dump
get_config_dump-save ops save_as_rows id timestamp c dumps rows config_type other h = ground (
  arith,
  lookup-replace same_member same_pair_iff (ops.config_type_name, id_text id)
      (config_type, id_text other) (record { dump = (ops.dump c).0; updated_at = timestamp }) dumps,
)

-- After the configs of a group are removed no config of its id has a dump, and it has no info and no
-- members; dumps, infos and members under other ids are what they were.
pub lookup-remove_group_configs {ℓ κ} :
    {I : Type ℓ} (F : Type κ) (id : Text) (t : GroupTables I) (config_type other n : Text)
    → let after = (remove_group_configs {F = F} none id t).0 in
      (get_config_dump config_type (some other) after.configs ≡ (
        if text_eq other id then ok none else get_config_dump config_type (some other) t.configs))
      × ((lookup text_eq other after.infos
            ≡ (if text_eq other id then none else lookup text_eq other t.infos))
          × (lookup same_member (other, n) after.members
              ≡ (if text_eq other id then none else lookup same_member (other, n) t.members)))
unfolding remove_group_configs get_config_dump
lookup-remove_group_configs F id t config_type other n = (
  ground (
    arith,
    lookup-keep_rows same_member same_pair_iff (λ key. not (text_eq (key.1) id))
        (config_type, other) t.configs,
  ),
  (
    ground
        (arith, lookup-keep_rows text_eq text_eq_iff (λ key. not (text_eq key id)) other t.infos),
    ground (
      arith,
      lookup-keep_rows same_member same_pair_iff (λ key. not (text_eq (key.0) id)) (other, n)
          t.members,
    ),
  ),
)
