-- ===== src/SogsBatch/Own.antt =====
-- Requests that share a batch to a community server each get the answer that the server gives to
-- them alone.
use mathlib.Core.Path.{subst}
use session_cli.Base.{
  ℕ, zero, suc, ◌≡◌, refl, ◌∙◌, true, false, List, [], ◌∷◌, map, Option, none, some, Result, ok,
  err, arith, Option-cases, inl, inr, get_elem?, get_elem?-map,
}
use session_cli.Base.Text.{Text, codes}
use session_cli.Batcher.{Pending, Batch, requests, callers, answer, fail_all, run_batch}
use session_cli.Batcher.Replies.{run_batch_at}
use session_cli.HttpCache.{Response}
use session_cli.SogsBatch.{
  Encoding, invalid_json, BatchResponseItem, HttpRequest, new_batch_request_item, item_response,
  new_items, community_upstream,
}
use session_cli.SogsBatch.Items.{Reading, Received, read_item, carried, read_item-new}

-- The content of an answer: nothing, bytes of a type, or a value of JSON.
pub data Content (J : Type 0) : Type 0 where
  nothing : Content J
  bytes : (content_type : Text) (body : List ℕ) → Content J
  value : J → Content J

module _ {J K M : Type 0} (enc : Encoding J K M) where
  -- The item of an answer, as a community server writes it.
  abbrev pub answer_item : ℕ × Content J → BatchResponseItem J
  answer_item (code, nothing) = record { code = code; content_type = none; body = none }
  answer_item (code, bytes t b) = record {
    code = code;
    content_type = some t;
    body = some (enc.string (enc.encode_base64 b));
  }
  answer_item (code, value v) = record {
    code = code;
    content_type = some (codes "application/json");
    body = some v;
  }

  -- The server answers an item as it answers the request that it reads in it.
  abbrev pub respond : (Received → ℕ × Content J) → Option Received → BatchResponseItem J
  respond serve none = answer_item (400, nothing)
  respond serve (some d) = answer_item (serve d)

  abbrev pub content_body : Content J → List ℕ
  content_body nothing = []
  content_body (bytes t b) = b
  content_body (value v) = enc.to_string v

  abbrev NotJson : Option M → Type 0
  NotJson none = Unit {0}
  NotJson (some mime) = enc.is_application_json mime ≡ false

  -- Bytes are not said to be JSON.
  abbrev pub IsApart : Content J → Type 0
  IsApart (bytes t b) = NotJson (enc.parse_mime t)
  IsApart _ = Unit {0}

  module _ {κ} {E : Type κ} where
    new_items-invalid :
        (rs : List HttpRequest) (i : ℕ) (r : HttpRequest)
        → get_elem? rs i ≡ some r
        → new_batch_request_item enc r.request ≡ none
        → new_items enc {E = E} rs ≡ err invalid_json
    unfolding new_items
    new_items-invalid [] i r h e = cc
    new_items-invalid (x ∷ rs) zero r h e = ground (arith, h, e)
    new_items-invalid (x ∷ rs) (suc i) r h e =
        elim (Option-cases (new_batch_request_item enc x.request)) [
          | inl f ↦ rw f refl
          | inr (j, f) ↦ rw (f, new_items-invalid rs i r h e) refl
        ]

    -- One request of a batch that has no item, as its body is said to be JSON and is not, fails the
    -- requests of all callers of the batch.
    pub run_batch-invalid {ℓ} :
        {A : Type ℓ} (execute_rpc : A → Text × List J → Result E (List (BatchResponseItem J)))
        (b : Batch A HttpRequest) (i : ℕ) (p : Pending A HttpRequest)
        → get_elem? (requests b) i ≡ some p
        → new_batch_request_item enc p.input.request ≡ none
        → run_batch (community_upstream enc execute_rpc) b
          ≡ fail_all {O = Response} invalid_json (callers (requests b))
    unfolding run_batch community_upstream
    run_batch-invalid execute_rpc b i p at e =
        rw
          (new_items-invalid (map (λ q. q.input) (requests b)) i p.input
            (get_elem?-map (λ q. q.input) (requests b) i at) e)
          refl

  -- The media types that are relied on.
  pub record MediaTypes : Type 0 where
    pub json : M
    pub parse-json : enc.parse_mime (codes "application/json") ≡ some json
    pub json-json : enc.is_application_json json ≡ true
    pub octet_stream-json : enc.is_application_json enc.application_octet_stream ≡ false

  module _ (reading : Reading enc) (media : MediaTypes) where
    -- The response that is made of an item has the code and the body of the answer.
    pub item_response-answer :
        (code : ℕ) (c : Content J)
        → IsApart c
        → ((item_response enc (answer_item (code, c))).status ≡ code)
          × ((item_response enc (answer_item (code, c))).body ≡ content_body c)
    unfolding item_response
    item_response-answer code nothing h = (refl, refl)
    item_response-answer code (bytes t b) h =
        let read = reading.as_string-string (enc.encode_base64 b) in
        let base64 = reading.read-base64 b in
        (
          refl,
          elim (Option-cases (enc.parse_mime t)) [
            | inl e ↦ rw (e, media.octet_stream-json, read, base64) refl
            | inr (m, e) ↦ rw (e, subst NotJson e h, read, base64) refl
          ],
        )
    item_response-answer code (value v) h = (refl, rw (media.parse-json, media.json-json) refl)

    module _ {ℓ κ} {A : Type ℓ} {E : Type κ} (serve : Received → ℕ × Content J)
        (execute_rpc : A → Text × List J → Result E (List (BatchResponseItem J))) where
      abbrev pub Serves : Type (ℓ ⊔ κ)
      Serves =
          (args : A) (url : Text) (items : List J)
          → execute_rpc args (url, items)
            ≡ ok (map (λ j. respond serve (read_item reading j)) items)

      -- Each request says what it carries: no body is JSON by its type alone.
      abbrev pub AllCarried : List HttpRequest → Type 0
      AllCarried [] = Unit {0}
      AllCarried (r ∷ rs) = ((d : Received) × (carried reading r.request ≡ some d)) × AllCarried rs

      item-made :
          (r : HttpRequest) (d : Received)
          → carried reading r.request ≡ some d
          → (j : J) × (new_batch_request_item enc r.request ≡ some j)
            × (read_item reading j ≡ some d)
      item-made r d h = elim (Option-cases (new_batch_request_item enc r.request)) [
        | inl e ↦ ground (arith, e, h, read_item-new reading r.request)
        | inr (j, e) ↦ (j, e, ground (arith, e, h, read_item-new reading r.request))
      ]

      items-made :
          (rs : List HttpRequest)
          → AllCarried rs
          → (items : List J) × (new_items enc {E = E} rs ≡ ok items)
            × (map (λ j. respond serve (read_item reading j)) items
                ≡ map (λ r. respond serve (carried reading r.request)) rs)
      unfolding new_items
      items-made [] h = ([], refl, refl)
      items-made (r ∷ rs) ((d, c), h) =
          let (j, e, f) = item-made r d c in
          let (items, g, m) = items-made rs h in (j ∷ items, rw (e, g) refl, rw (f, c, m) refl)

      upstream-made :
          (serves : Serves) (args : A) (first : HttpRequest) (rest : List HttpRequest)
          → AllCarried (first ∷ rest)
          → community_upstream enc execute_rpc args (first ∷ rest)
            ≡ ok (
                map
                  (item_response enc)
                  (map (λ r. respond serve (carried reading r.request)) (first ∷ rest)))
      unfolding community_upstream
      upstream-made serves args first rest h =
          let (items, g, m) = items-made (first ∷ rest) h in
          rw (g, serves args first.base_url items, m) refl

      caller_at :
          (ps : List (Pending A HttpRequest)) (i : ℕ) (p : Pending A HttpRequest)
          → get_elem? ps i ≡ some p
          → get_elem? (callers ps) i ≡ some p.caller
      caller_at [] i p h = cc
      caller_at (q ∷ ps) zero p h = ground (arith, h)
      caller_at (q ∷ ps) (suc i) p h = caller_at ps i p h

      -- Where a server answers the items of a batch one by one, and no request of the batch says that
      -- a body is JSON which is not, the caller at each place of a batch is sent the code and the body
      -- with which the server answers the method, path, headers and body of the caller's own request,
      -- provided the server names no bytes JSON.
      pub run_batch-own :
          (serves : Serves) (b : Batch A HttpRequest) (i : ℕ) (p : Pending A HttpRequest)
          (d : Received)
          → AllCarried (map (λ q. q.input) (requests b))
          → get_elem? (requests b) i ≡ some p
          → carried reading p.input.request ≡ some d
          → IsApart (serve d).1
          → (r : Response) × (get_elem? (run_batch (community_upstream enc execute_rpc) b) i
              ≡ some (p.caller, answer r))
            × (r.status ≡ (serve d).0)
            × (r.body ≡ content_body (serve d).1)
      run_batch-own serves b i p d h at c apart =
          let r = item_response enc (answer_item (serve d)) in
          let inputs = map (λ q. q.input) (requests b) in
          let own =
            get_elem?-map (item_response enc)
              (map (λ q. respond serve (carried reading q.request)) inputs) i
              (get_elem?-map (λ q. respond serve (carried reading q.request)) inputs i
                (get_elem?-map (λ q. q.input) (requests b) i at)) in
          (
            r,
            run_batch_at (community_upstream enc execute_rpc) b i p.caller
                  (caller_at (requests b) i p at)
                ∙ rw
                    (
                      upstream-made serves b.head.args b.head.input (map (λ q. q.input) b.rest) h,
                      own,
                      c,
                    )
                    refl,
            (item_response-answer (serve d).0 (serve d).1 apart).0,
            (item_response-answer (serve d).0 (serve d).1 apart).1,
          )
