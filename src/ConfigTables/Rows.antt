-- ===== src/ConfigTables/Rows.antt =====
-- What a save leaves under each key.
use session_cli.Base.{
  ◌≡◌, refl, ◌∙◌, ap, ◌↔◌, Bool, true, false, List, [], ◌∷◌, Option, none, some, Result, ok, arith,
  Option-cases, Result-cases, inl, inr, if◌then◌else◌,
}
use session_cli.Base.Assoc.{lookup, replace, lookup-replace}
use session_cli.ConfigTables.{ConfigError, keep_rows, insert_items, save_rows, newest, listed}

-- The first of two options that is there.
abbrev pub or_else {ℓ} : {A : Type ℓ} → Option A → Option A → Option A
or_else (some a) o = some a
or_else none o = o

module _ {ℓ κ} {K : Type ℓ} {V : Type κ} (same : K → K → Bool)
    (same_iff : (a b : K) → (same a b ≡ true) ↔ (a ≡ b)) where
  pub lookup-keep_rows :
      (kept : K → Bool) (key : K) (table : List (K × V))
      → lookup same key (keep_rows kept table) ≡ (if kept key then lookup same key table else none)
  unfolding keep_rows lookup
  lookup-keep_rows kept key [] = ground arith
  lookup-keep_rows kept key ((k, v) ∷ table) =
      ground (arith, lookup-keep_rows kept key table, same_iff k key)

  module _ {μ} {A : Type μ} (row_of : A → Result ConfigError (Option (K × V))) where
    pub lookup-insert_items :
        (key : K) (items : List A) (table : List (K × V))
        → (insert_items same row_of items table).result ≡ ok tt
        → lookup same key (insert_items same row_of items table).table
          ≡ or_else (newest same row_of items key) (lookup same key table)
    unfolding insert_items newest
    lookup-insert_items key [] table h = refl
    lookup-insert_items key (a ∷ items) table h = elim (Result-cases (row_of a)) [
      | inr (e, r) ↦ ground arith
      | inl (row, r) ↦ elim (Option-cases row) [
        | inl n ↦ ground (arith, lookup-insert_items key items table)
        | inr ((k, v), n) ↦ ground (
          arith,
          lookup-insert_items key items (replace same k v table),
          lookup-replace same same_iff k key v table,
        )
      ]
    ]

    -- After a save that succeeds every key has what the last item with that key says; where no item
    -- has it, what was there before, if the deletion kept it.
    pub lookup-save_rows :
        (kept : K → Bool) (key : K) (items : List A) (table : List (K × V))
        → (save_rows same row_of kept items table).result ≡ ok tt
        → lookup same key (save_rows same row_of kept items table).table
          ≡ or_else
              (newest same row_of items key)
              (if kept key then lookup same key table else none)
    unfolding save_rows
    lookup-save_rows kept key items table h =
        lookup-insert_items key items (keep_rows kept table) h
        ∙ ap (or_else (newest same row_of items key)) (lookup-keep_rows kept key table)

    module _ (key_of : A → Option K)
        (keyed : (a : A) (k : K) (v : V) → row_of a ≡ ok (some (k, v)) → key_of a ≡ some k)
        (unkeyed : (a : A) → row_of a ≡ ok none → key_of a ≡ none) where
      listed-newest :
          (key : K) (items : List A) (table : List (K × V))
          → (insert_items same row_of items table).result ≡ ok tt
          → newest same row_of items key ≡ none
          → listed same key_of items key ≡ false
      unfolding insert_items newest listed
      listed-newest key [] table h n = refl
      listed-newest key (a ∷ items) table h n = elim (Result-cases (row_of a)) [
        | inr (e, r) ↦ ground arith
        | inl (row, r) ↦ elim (Option-cases row) [
          | inl m ↦ ground (arith, unkeyed a, listed-newest key items table)
          | inr ((k, v), m) ↦
              ground (arith, keyed a k v, listed-newest key items (replace same k v table))
        ]
      ]

      -- Where just the listed keys are kept, a save that succeeds leaves under every key what the
      -- items say of it, whatever was in the table.
      pub lookup-save_rows-listed :
          (kept : K → Bool) (key : K) (items : List A) (table : List (K × V))
          → (save_rows same row_of kept items table).result ≡ ok tt
          → kept key ≡ listed same key_of items key
          → lookup same key (save_rows same row_of kept items table).table
            ≡ newest same row_of items key
      unfolding save_rows
      lookup-save_rows-listed kept key items table h e =
          elim (Option-cases (newest same row_of items key)) [
            | inr (v, n) ↦ ground (arith, lookup-save_rows kept key items table h)
            | inl n ↦ ground (
              arith,
              lookup-save_rows kept key items table h,
              listed-newest key items (keep_rows kept table) h n,
            )
          ]
