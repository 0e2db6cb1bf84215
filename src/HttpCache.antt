-- ===== src/HttpCache.antt =====
-- libsession-ui-core/src/http_api/caching.rs and libsession-ui-core/src/db/http_cache.rs: an executor
-- that answers from a table of responses, and asks the underlying one where there is none.
-- The table is the list of its rows in the order of their keys, in which a statement that compares
-- without case finds them. The crates url and http are parameters: the full url of a request, and
-- the text of a header's value. The underlying executor is what it answers to the call; a database
-- fault is one of the environment's choice, before the table is changed.
pub mod Rows
pub mod Cached
mod Tests
use session_cli.Base.{
  ℕ, ◌≡◌, Bool, true, false, not, ◌&&◌, ◌||◌, List, [], ◌∷◌, Option, none, some, Result, ok, err,
  ensure, ok_or, ◌>>=◌, ◌>>◌, leb, ltb, ◌==◌, map, if◌then◌else◌,
}
use session_cli.Base.Text.{Text, text_eq, eq_ignore_ascii_case}

-- `HeaderValue::to_str` and the value that `Builder::header` makes of a text.
pub record HeaderCodec : Type 0 where
  pub to_str : List ℕ → Option Text
  pub from_text : Text → Option (List ℕ)
  -- a value that has a text is the value of that text
  pub from_text-to_str : (v : List ℕ) (s : Text) → to_str v ≡ some s → from_text s ≡ some v

-- `HttpRPCResponse`: the status code, the headers and the body.
pub record Response : Type 0 where
  pub status : ℕ
  pub headers : List (Text × List ℕ)
  pub body : List ℕ

pub record CacheRow : Type 0 where
  pub url : Text
  pub response_status_code : ℕ
  pub response_headers : List (Text × Text)
  pub response : List ℕ
  pub created_at : ℕ
  pub last_accessed_at : ℕ

pub data CacheError {ℓ κ} (E : Type ℓ) (F : Type κ) : Type (ℓ ⊔ κ) where
  database : F → CacheError E F
  building_response : CacheError E F
  failed_to_save_cache : F → CacheError E F
  underlying : E → CacheError E F

-- `WHERE url = $url COLLATE NOCASE`, of which the first row is taken
unfoldable pub find_row : Text → List CacheRow → Option CacheRow
find_row url [] = none
find_row url (r ∷ rows) = if eq_ignore_ascii_case r.url url then some r else find_row url rows

-- The order of the primary key.
unfoldable pub text_lt : Text → Text → Bool
text_lt [] [] = false
text_lt [] (y ∷ ys) = true
text_lt (x ∷ xs) [] = false
text_lt (x ∷ xs) (y ∷ ys) = ltb x y || (x == y && text_lt xs ys)

-- `INSERT OR REPLACE`: the primary key is compared with its case.
unfoldable pub replace_row : CacheRow → List CacheRow → List CacheRow
replace_row r [] = r ∷ []
replace_row r (x ∷ rows) =
    if text_eq x.url r.url
    then r ∷ rows
    else if text_lt r.url x.url
    then r ∷ x ∷ rows
    else x ∷ replace_row r rows

abbrev pub accessed : ℕ → Text → CacheRow → CacheRow
accessed now url r =
    if eq_ignore_ascii_case r.url url then record r { last_accessed_at = now } else r

module _ (codec : HeaderCodec) where
  unfoldable pub text_headers : List (Text × List ℕ) → List (Text × Text)
  text_headers [] = []
  text_headers ((name, value) ∷ headers) =
      let rest = text_headers headers in
      elim (codec.to_str value) [ some s ↦ (name, s) ∷ rest | none ↦ rest ]

  unfoldable pub build_headers : List (Text × Text) → Option (List (Text × List ℕ))
  build_headers [] = some []
  build_headers ((name, s) ∷ headers) =
      let rest = build_headers headers in
      elim (codec.from_text s) [
        | none ↦ none
        | some value ↦ elim rest [ none ↦ none | some values ↦ some ((name, value) ∷ values) ]
      ]

  -- `Response::builder()`, which refuses a status code outside 100..=999.
  unfoldable pub build_response : CacheRow → Option Response
  build_response r =
      if leb 100 r.response_status_code && ltb r.response_status_code 1000
      then elim (build_headers r.response_headers) [
        | none ↦ none
        | some headers ↦
            some (record { status = r.response_status_code; headers = headers; body = r.response })
      ]
      else none

  abbrev pub saved_row : Text → ℕ → Response → CacheRow
  saved_row url now r = record {
    url = url;
    response_status_code = r.status;
    response_headers = text_headers r.headers;
    response = r.body;
    created_at = now;
    last_accessed_at = now;
  }

  unfoldable pub save_cache : Text → ℕ → Response → List CacheRow → List CacheRow
  save_cache url now r = replace_row (saved_row url now r)

abbrev pub is_success : ℕ → Bool
is_success status = leb 200 status && ltb status 300

abbrev pub is_server_error : ℕ → Bool
is_server_error status = leb 500 status && ltb status 600

-- What a call does: the table, its result, and whether the underlying executor was called.
pub record Executed {ℓ κ} (E : Type ℓ) (F : Type κ) : Type (ℓ ⊔ κ) where
  pub rows : List CacheRow
  pub result : Result (CacheError E F) Response
  pub called : Bool

-- The faults of the connection for reading and for saving.
pub record Faults {ℓ} (F : Type ℓ) : Type ℓ where
  pub on_get : Option F
  pub on_save : Option F

module _ {ℓ κ} {E : Type ℓ} {F : Type κ} (codec : HeaderCodec) where
  -- A response of the underlying executor, on its way to the caller.
  unfoldable pub keep_response : Text → ℕ → Option F → Response → List CacheRow → Executed E F
  keep_response url now fault r rows =
      if is_success r.status || not (is_server_error r.status)
      then elim fault [
        | some e ↦ record { rows = rows; result = err (failed_to_save_cache e); called = true }
        | none ↦ record { rows = save_cache codec url now r rows; result = ok r; called = true }
      ]
      else record { rows = rows; result = ok r; called = true }

  unfoldable pub execute_url :
      Text → ℕ → Faults F → Result E Response → List CacheRow → Executed E F
  unfolding keep_response
  execute_url url now faults answer rows = elim faults.on_get [
    | some e ↦ record { rows = rows; result = err (database e); called = false }
    | none ↦ elim (find_row url rows) [
      | some r ↦ elim (build_response codec r) [
        | none ↦ record { rows = rows; result = err building_response; called = false }
        | some resp ↦ record {
          rows = map (accessed now url) rows;
          result = ok resp;
          called = false;
        }
      ]
      | none ↦ elim answer [
        | err e ↦ record { rows = rows; result = err (underlying e); called = true }
        | ok r ↦ keep_response url now faults.on_save r rows
      ]
    ]
  ]

  unfoldable pub execute :
      {R : Type 0}
      → (R → Option Text)
      → R
      → ℕ
      → Faults F
      → Result E Response
      → List CacheRow
      → Executed E F
  unfolding execute_url
  execute full_url request now faults answer rows = elim (full_url request) [
    | some url ↦ execute_url url now faults answer rows
    | none ↦ elim answer [
      | ok r ↦ record { rows = rows; result = ok r; called = true }
      | err e ↦ record { rows = rows; result = err (underlying e); called = true }
    ]
  ]
