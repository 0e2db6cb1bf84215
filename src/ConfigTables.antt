-- ===== src/ConfigTables.antt =====
-- libsession-ui-core/src/db/config.rs: the tables of configs, which are written from the config
-- objects of libsession. A table is the list of its rows by primary key; an object is what it dumps
-- and lists. `INSERT OR REPLACE` fails where a NOT NULL or CHECK constraint of
-- libsession-ui-core/src/db/migrations/001-initial/15-configs.sql does not hold.
-- The statements of a save are not in a transaction: an error keeps the rows written before it.
pub mod Rows
pub mod Contacts
pub mod Groups
pub mod Dumps
pub mod Convos
mod Tests
use session_cli.Base.{
  ℕ, Bool, true, false, not, ◌&&◌, ◌||◌, List, [], ◌∷◌, Option, none, some, Result, ok, err,
  if◌then◌else◌,
}
use session_cli.Base.Assoc

pub data ConfigError : Type 0 where
  invalid_id constraint_failed missing_group_id dump_is_null : ConfigError

-- The rows after a save, and its result.
pub record SavedRows {ℓ} (T : Type ℓ) : Type ℓ where
  pub table : T
  pub result : Result ConfigError (Unit {0})

module _ {ℓ κ} {K : Type ℓ} {V : Type κ} where
  -- `DELETE`, of the rows whose key is not kept
  unfoldable pub keep_rows : (K → Bool) → List (K × V) → List (K × V)
  keep_rows kept [] = []
  keep_rows kept ((k, v) ∷ rows) =
      if kept k then (k, v) ∷ keep_rows kept rows else keep_rows kept rows

module _ {ℓ κ μ} {A : Type μ} {K : Type ℓ} {V : Type κ} (same : K → K → Bool)
    (row_of : A → Result ConfigError (Option (K × V))) where
  -- The loop that inserts a row for every item; an item may have none.
  unfoldable pub insert_items : List A → List (K × V) → SavedRows (List (K × V))
  insert_items [] table = record { table = table; result = ok tt }
  insert_items (a ∷ items) table = elim (row_of a) [
    | err e ↦ record { table = table; result = err e }
    | ok row ↦ elim row [
      | none ↦ insert_items items table
      | some (k, v) ↦ insert_items items (Assoc.replace same k v table)
    ]
  ]

  -- `save_as_rows`: the rows that are not listed are deleted first.
  unfoldable pub save_rows : (K → Bool) → List A → List (K × V) → SavedRows (List (K × V))
  unfolding insert_items
  save_rows kept items table = insert_items items (keep_rows kept table)

  -- What the items say of a key: the row of the last one that has it.
  unfoldable pub newest : List A → K → Option V
  newest [] key = none
  newest (a ∷ items) key =
      let rest = newest items key in
      elim rest [
        | some v ↦ some v
        | none ↦ elim (row_of a) [
          | err e ↦ none
          | ok row ↦ elim row [ none ↦ none | some (k, v) ↦ if same k key then some v else none ]
        ]
      ]

-- `IN (SELECT value FROM json_each(?))`, for the keys that the items have
unfoldable pub listed {ℓ μ} :
    {K : Type ℓ} {A : Type μ} → (K → K → Bool) → (A → Option K) → List A → K → Bool
listed same key_of [] key = false
listed same key_of (a ∷ items) key =
    let rest = listed same key_of items key in
    elim (key_of a) [ none ↦ rest | some k ↦ same k key || rest ]
