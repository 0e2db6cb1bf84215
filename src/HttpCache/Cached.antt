-- ===== src/HttpCache/Cached.antt =====
-- What the caching executor answers, and what it keeps.
use mathlib.Core.Path.{subst, sym}
use session_cli.Base.{
  ℕ, ◌≤◌, ◌<◌, ◌≡◌, Bool, true, false, List, [], ◌∷◌, Option, none, some, Result, ok, err, arith,
  Bool-cases, Option-cases, Result-cases, inl, inr, ◌⊎◌, map, if◌then◌else◌,
}
use session_cli.Base.Text.{Text, text_eq, eq_ignore_ascii_case}
use session_cli.HttpCache.{
  CacheRow, HeaderCodec, Response, Faults, CacheError, find_row, replace_row, saved_row, save_cache,
  build_response, is_server_error, keep_response, execute_url, execute, accessed, text_lt,
}
use session_cli.HttpCache.Rows.{
  find_row-none, find_row-replace_row, legible, build_headers-text_headers,
}

abbrev pub AllFine : List CacheRow → Type 0
AllFine [] = Unit
AllFine (r ∷ rows) = (is_server_error r.response_status_code ≡ false) × AllFine rows

AllFine-accessed :
    (now : ℕ) (url : Text) (rows : List CacheRow)
    → AllFine rows
    → AllFine (map (accessed now url) rows)
AllFine-accessed now url [] h = tt
AllFine-accessed now url (r ∷ rows) (h, hs) = (ground arith, AllFine-accessed now url rows hs)

AllFine-if :
    (b : Bool) (xs ys : List CacheRow) → AllFine xs → AllFine ys → AllFine (if b then xs else ys)
AllFine-if true xs ys h k = h
AllFine-if false xs ys h k = k

AllFine-replace_row :
    (r : CacheRow) (rows : List CacheRow)
    → is_server_error r.response_status_code ≡ false
    → AllFine rows
    → AllFine (replace_row r rows)
unfolding replace_row
AllFine-replace_row r [] f h = (f, tt)
AllFine-replace_row r (x ∷ rows) f (h, hs) =
    AllFine-if (text_eq x.url r.url) (r ∷ rows)
      (if text_lt r.url x.url then r ∷ x ∷ rows else x ∷ replace_row r rows) (f, hs)
      (AllFine-if (text_lt r.url x.url) (r ∷ x ∷ rows) (x ∷ replace_row r rows) (f, (h, hs))
        (h, AllFine-replace_row r rows f hs))

module _ (codec : HeaderCodec) where
  -- A response that is built from a row that was saved: illegible header values are lost.
  abbrev pub as_cached : Response → Response
  as_cached r = record { status = r.status; headers = legible codec r.headers; body = r.body }

  build_response-saved_row :
      (url : Text) (now : ℕ) (r : Response)
      → 100 ≤ r.status
      → r.status < 1000
      → build_response codec (saved_row codec url now r) ≡ some (as_cached r)
  unfolding build_response
  build_response-saved_row url now r low high =
      ground (arith, build_headers-text_headers codec r.headers)

module _ {ℓ κ} (E : Type ℓ) {F : Type κ} (codec : HeaderCodec) where
  keep_response-AllFine :
      (url : Text) (now : ℕ) (fault : Option F) (r : Response) (rows : List CacheRow)
      → AllFine rows
      → AllFine (keep_response {E = E} codec url now fault r rows).rows
  unfolding keep_response save_cache
  keep_response-AllFine url now fault r rows h = elim (Bool-cases (is_server_error r.status)) [
    | inl e ↦
        let same : (keep_response {E = E} codec url now fault r rows).rows ≡ rows = ground arith in
        subst AllFine (sym same) h
    | inr e ↦ elim (Option-cases fault) [
      | inl f ↦
          let same : (keep_response {E = E} codec url now fault r rows).rows
              ≡ replace_row (saved_row codec url now r) rows =
            ground arith in
          subst AllFine (sym same) (AllFine-replace_row (saved_row codec url now r) rows e h)
      | inr (x, f) ↦
          let same : (keep_response {E = E} codec url now fault r rows).rows ≡ rows =
            ground arith in
          subst AllFine (sym same) h
    ]
  ]

module _ {ℓ κ} {E : Type ℓ} {F : Type κ} (codec : HeaderCodec) {R : Type 0}
    (full_url : R → Option Text) where
  -- Once a response of status 100 to 999 that is no server error was fetched and saved without a
  -- fault for a url that had none, the next request, if it is for that url or one that differs in case
  -- only, whatever its method and body, and the table can be read, is answered by it, without the
  -- header values that are no text and without a call of the underlying executor.
  pub execute-execute :
      (req later : R) (url url' : Text) (now now' : ℕ) (r : Response) (on_save : Option F)
      (answer : Result E Response) (rows : List CacheRow)
      → full_url req ≡ some url
      → full_url later ≡ some url'
      → eq_ignore_ascii_case url url' ≡ true
      → find_row url rows ≡ none
      → is_server_error r.status ≡ false
      → 100 ≤ r.status
      → r.status < 1000
      → let first =
          execute {E = E} {F = F} codec full_url req now
            (record { on_get = none; on_save = none })
            (ok r)
            rows in
        let second =
          execute {E = E} {F = F} codec full_url later now'
            (record { on_get = none; on_save = on_save })
            answer
            first.rows in
        (second.result ≡ ok (as_cached codec r)) × (second.called ≡ false)
  unfolding execute execute_url keep_response save_cache
  execute-execute req later url url' now now' r on_save answer rows a b same n fine low high =
      let found =
        find_row-replace_row (saved_row codec url now r) url' rows same
          (find_row-none url url' rows same n) in
      let built = build_response-saved_row codec url now r low high in (ground arith, ground arith)

  -- A call that ends in an error leaves the table as it was.
  pub execute-err :
      (req : R) (now : ℕ) (faults : Faults F) (answer : Result E Response) (rows : List CacheRow)
      (e : CacheError E F)
      → (execute codec full_url req now faults answer rows).result ≡ err e
      → (execute codec full_url req now faults answer rows).rows ≡ rows
  unfolding execute execute_url keep_response
  execute-err req now faults answer rows e h = ground arith

  rows-execute_url :
      (url : Text) (now : ℕ) (faults : Faults F) (answer : Result E Response) (rows : List CacheRow)
      → ((execute_url codec url now faults answer rows).rows ≡ rows)
        ⊎ (((execute_url codec url now faults answer rows).rows ≡ map (accessed now url) rows)
            ⊎ ((r : Response) × ((execute_url codec url now faults answer rows).rows
                  ≡ (keep_response {E = E} codec url now faults.on_save r rows).rows)))
  unfolding execute_url
  rows-execute_url url now faults answer rows = elim (Option-cases faults.on_get) [
    | inr (x, g) ↦ inl (ground arith)
    | inl g ↦ elim (Option-cases (find_row url rows)) [
      | inr (row, e) ↦ elim (Option-cases (build_response codec row)) [
        | inl b ↦ inl (ground arith)
        | inr (resp, b) ↦ inr (inl (ground arith))
      ]
      | inl e ↦ elim (Result-cases answer) [
        | inl (r, a) ↦ inr (inr (r, ground arith))
        | inr (x, a) ↦ inl (ground arith)
      ]
    ]
  ]

  execute_url-AllFine :
      (url : Text) (now : ℕ) (faults : Faults F) (answer : Result E Response) (rows : List CacheRow)
      → AllFine rows
      → AllFine (execute_url codec url now faults answer rows).rows
  unfolding execute_url
  execute_url-AllFine url now faults answer rows h =
      elim (rows-execute_url url now faults answer rows) [
        | inl e ↦ subst AllFine (sym e) h
        | inr (inl e) ↦ subst AllFine (sym e) (AllFine-accessed now url rows h)
        | inr (inr (r, e)) ↦
            subst AllFine (sym e) (keep_response-AllFine E codec url now faults.on_save r rows h)
      ]

  -- No call brings a server error into a table that has none.
  pub execute-AllFine :
      (req : R) (now : ℕ) (faults : Faults F) (answer : Result E Response) (rows : List CacheRow)
      → AllFine rows
      → AllFine (execute codec full_url req now faults answer rows).rows
  unfolding execute execute_url keep_response save_cache
  execute-AllFine req now faults answer rows h = elim (Option-cases (full_url req)) [
    | inl e ↦
        let same : (execute codec full_url req now faults answer rows).rows ≡ rows = ground arith in
        subst AllFine (sym same) h
    | inr (url, e) ↦
        let same : (execute codec full_url req now faults answer rows).rows
            ≡ (execute_url codec url now faults answer rows).rows =
          ground arith in
        subst AllFine (sym same) (execute_url-AllFine url now faults answer rows h)
  ]
