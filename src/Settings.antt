-- ===== src/Settings.antt =====
-- libsession-ui-core/src/db/app_setting.rs: the table of settings, by name and id, with the `AppSetting`
-- of libsession-ui-core/src/app_setting/mod.rs. How a value is written and read is the parameter
-- `Setting`; the row has the primary key (name, id).
use session_cli.Base.{
  ◌≡◌, ap, ◌∙◌, ◌↔◌, Bool, true, false, ◌&&◌, List, [], ◌∷◌, Option, none, some, Result, ok, ◌>>=◌,
  arith, if◌then◌else◌, Result-cases, inl, inr, sym,
}
use session_cli.Base.Assoc.{lookup, replace, lookup-replace}
use session_cli.Base.Text.{Text, text_eq, text_eq_iff, text_eq_refl}

-- A table row: its key, and the value as SQL holds it.
abbrev pub SettingKey : Type 0
SettingKey = Text × Text

abbrev pub Settings {ℓ} : Type ℓ → Type ℓ
Settings V = List (SettingKey × V)

unfoldable pub same_key : SettingKey → SettingKey → Bool
same_key a b = text_eq a.0 b.0 && text_eq a.1 b.1

pub same_key_iff : (a b : SettingKey) → (same_key a b ≡ true) ↔ (a ≡ b)
unfolding same_key
same_key_iff a b = ground (arith, text_eq_iff a.0 b.0, text_eq_iff a.1 b.1)

same_name : (name id j : Text) → same_key (name, id) (name, j) ≡ text_eq id j
unfolding same_key
same_name name id j = rw (text_eq_refl name)

-- A type of settings: `NAME`, `ToSql` and `FromSql`.
pub record Setting {ℓ κ μ} (E : Type ℓ) (V : Type κ) (T : Type μ) : Type (ℓ ⊔ κ ⊔ μ) where
  pub name : Text
  pub to_sql : T → Result E V
  pub from_sql : V → Result E T
  -- a value that was written is read, but need not be the same: a time in seconds is a float
  pub reread : T → T
  pub from_sql-to_sql : (t : T) (v : V) → to_sql t ≡ ok v → from_sql v ≡ ok (reread t)

module _ {ℓ κ μ} {E : Type ℓ} {V : Type κ} {T : Type μ} (setting : Setting E V T) where
  -- The column of the row, where there is one, is read.
  abbrev read_row : Option V → Result E (Option T)
  read_row none = ok none
  read_row (some v) = do t ← setting.from_sql v; ok (some t)

  unfoldable pub load_setting : Text → Settings V → Result E (Option T)
  load_setting id table = read_row (lookup same_key (setting.name, id) table)

  unfoldable pub save_setting : Text → T → Settings V → Result E (Settings V)
  save_setting id value table = do
    v ← setting.to_sql value
    ok (replace same_key (setting.name, id) v table)

  pub save-writes :
      (id : Text) (value : T) (table : Settings V) {v : V}
      → setting.to_sql value ≡ ok v
      → (after : Settings V) × (save_setting id value table ≡ ok after)
  unfolding save_setting
  save-writes id value table {v} e = (replace same_key (setting.name, id) v table, rw e)

  read-if :
      (b : Bool) {c : Bool}
      → c ≡ b
      → (value : T) (v : V) (old : Option V) → setting.to_sql value ≡ ok v
      → read_row (if c then some v else old)
        ≡ (if b then ok (some (setting.reread value)) else read_row old)
  read-if true e value v old f = rw (e, setting.from_sql-to_sql value v f)
  read-if false e value v old f = rw e

  -- What was saved is loaded, and nothing else has changed.
  pub load-save :
      (id j : Text) (value : T) (table after : Settings V)
      → save_setting id value table ≡ ok after
      → load_setting j after
        ≡ (if text_eq id j then ok (some (setting.reread value)) else load_setting j table)
  unfolding load_setting save_setting
  load-save id j value table after h = elim (Result-cases (setting.to_sql value)) [
    | inr (x, f) ↦ ground (arith, h, f)
    | inl (v, f) ↦
        let saved : replace same_key (setting.name, id) v table ≡ after = ground (arith, h, f) in
        ap (λ t. read_row (lookup same_key (setting.name, j) t)) (sym saved)
        ∙ ap read_row
            (lookup-replace same_key same_key_iff (setting.name, id) (setting.name, j) v table)
        ∙ read-if (text_eq id j) (same_name setting.name id j) value v
            (lookup same_key (setting.name, j) table) f
  ]

unfoldable pub remove_settings_by_name {ℓ} : {V : Type ℓ} → Text → Settings V → Settings V
remove_settings_by_name name [] = []
remove_settings_by_name name ((key, v) ∷ table) =
    if text_eq key.0 name
    then remove_settings_by_name name table
    else (key, v) ∷ remove_settings_by_name name table
