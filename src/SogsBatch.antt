-- ===== src/SogsBatch.antt =====
-- libsession-ui-core/src/sogs_api/batch.rs: requests to a community server as the items of one request, and
-- the responses in the answer to it; with the factory of libsession-ui-core/src/worker/community/sync_communities.rs
-- that makes a batch of libsession-ui-core/src/batcher.rs such a request, and
-- libsession-ui-core/src/utils/http/mime.rs.
-- The values of JSON, their maps, media types and base64 are those of crates and parameters; the
-- value of a header is its bytes. The call that carries the batch, up to the parsing of its answer,
-- is a parameter of the executor.
pub mod Items
pub mod Own
mod Tests
use session_cli.Base.{
  ℕ, Bool, true, false, List, [], ◌∷◌, map, Option, none, some, Result, ok, err, ok_or, ◌>>=◌,
  if◌then◌else◌,
}
use session_cli.Base.Assoc.{lookup, replace}
use session_cli.Base.Text.{Text, text_eq, codes}
use session_cli.Batcher.{Batchable, Upstream}
use session_cli.CommunityAuth.{Request, path_text}
use session_cli.HttpCache.{Response}
use session_cli.Messages.{one_of}

-- What is used of serde_json (`Value`, and its `Map` with the keys that are set), base64, http and
-- mime.
pub record Encoding (J K M : Type 0) : Type 0 where
  pub string : Text → J
  pub as_string : J → Option Text
  pub object : K → J
  pub empty_map : K
  pub insert : Text → J → K → K
  pub to_string : J → List ℕ
  pub from_slice : List ℕ → Option J
  pub encode_base64 : List ℕ → Text
  pub decode_base64 : Text → Option (List ℕ)
  pub to_str : List ℕ → Option Text
  pub parse_mime : Text → Option M
  pub is_application_json : M → Bool
  pub application_octet_stream : M
  -- `mime.to_string().parse()`
  pub mime_header : M → Option (List ℕ)

pub data BatchError {ℓ} (E : Type ℓ) : Type ℓ where
  invalid_json : BatchError E
  upstream : E → BatchError E

-- `BatchResponseItem`
pub record BatchResponseItem (J : Type 0) : Type 0 where
  pub code : ℕ
  pub content_type : Option Text
  pub body : Option J

abbrev pub and_then {ℓ κ} : {A : Type ℓ} {B : Type κ} → Option A → (A → Option B) → Option B
and_then none f = none
and_then (some a) f = f a

-- `HttpRPCRequest`
pub record HttpRequest : Type 0 where
  pub base_url : Text
  pub request : Request
  pub can_batch : Bool

unfoldable pub http_request_batchable : Batchable HttpRequest
http_request_batchable = record {
  should_batch_with = λ a b. text_eq a.base_url b.base_url;
  can_batch = λ r. r.can_batch;
}

module _ {J K M : Type 0} (enc : Encoding J K M) where
  abbrev pub get_content_type : List (Text × List ℕ) → Option M
  get_content_type headers =
      and_then (lookup text_eq (codes "content-type") headers)
        (λ value. and_then (enc.to_str value) enc.parse_mime)

  unfoldable pub is_json : List (Text × List ℕ) → Bool
  is_json headers = elim (get_content_type headers) [
    | none ↦ false
    | some mime ↦ enc.is_application_json mime
  ]

  -- `set_content_type`, whose error is not looked at
  abbrev pub set_content_type : M → List (Text × List ℕ) → List (Text × List ℕ)
  set_content_type mime headers = elim (enc.mime_header mime) [
    | none ↦ headers
    | some value ↦ replace text_eq (codes "content-type") value headers
  ]

  -- `HeaderMap::into_iter` names only the first value of a name, and a value without a name is left
  -- out, as is one that has no text; `seen` are the names so far.
  unfoldable pub header_map : List Text → List (Text × List ℕ) → K → K
  header_map seen [] acc = acc
  header_map seen ((name, value) ∷ headers) acc =
      let later = header_map seen headers acc in
      let without = header_map (name ∷ seen) headers acc in
      if one_of name seen then later else elim (enc.to_str value) [
        | none ↦ without
        | some text ↦ header_map (name ∷ seen) headers (enc.insert name (enc.string text) acc)
      ]

  abbrev pub item_head : Request → K
  item_head r = enc.insert (codes "headers") (enc.object (header_map [] r.headers enc.empty_map)) (
      enc.insert (codes "path") (enc.string (path_text r))
        (enc.insert (codes "method") (enc.string r.method) enc.empty_map))

  abbrev pub with_body : Bool → List ℕ → K → Option K
  with_body json [] head = some head
  with_body true (x ∷ body) head =
      and_then (enc.from_slice (x ∷ body)) (λ value. some (enc.insert (codes "json") value head))
  with_body false (x ∷ body) head =
      some (enc.insert (codes "b64") (enc.string (enc.encode_base64 (x ∷ body))) head)

  -- The item, or none where a body that is said to be JSON is not.
  unfoldable pub new_batch_request_item : Request → Option J
  unfolding header_map is_json
  new_batch_request_item r =
      and_then (with_body (is_json r.headers) r.body (item_head r))
        (λ fields. some (enc.object fields))

  -- `TryInto<NonEmpty<HttpRPCResponse>>`, on one item
  abbrev item_mime : BatchResponseItem J → M
  item_mime item = elim (and_then item.content_type enc.parse_mime) [
    | none ↦ enc.application_octet_stream
    | some mime ↦ mime
  ]

  abbrev decoded_or_empty : Option (List ℕ) → List ℕ
  decoded_or_empty none = []
  decoded_or_empty (some bytes) = bytes

  -- A string is base64 unless the content is JSON.
  abbrev value_body : J → Bool → Option Text → List ℕ
  value_body value false (some text) = decoded_or_empty (enc.decode_base64 text)
  value_body value _ _ = enc.to_string value

  abbrev response_body : Option J → M → List ℕ
  response_body none mime = []
  response_body (some value) mime =
      value_body value (enc.is_application_json mime) (enc.as_string value)

  unfoldable pub item_response : BatchResponseItem J → Response
  item_response item =
      let mime = item_mime item in
      record {
        status = item.code;
        headers = set_content_type mime [];
        body = response_body item.body mime;
      }

  module _ {κ} {E : Type κ} where
    unfoldable pub new_items : List HttpRequest → Result (BatchError E) (List J)
    unfolding new_batch_request_item
    new_items [] = ok []
    new_items (r ∷ rs) = do
      item ← ok_or (new_batch_request_item r.request) invalid_json
      items ← new_items rs
      ok (item ∷ items)

    -- The factory: the url of the first request, and the items.
    abbrev pub new_batch_request :
        HttpRequest → List HttpRequest → Result (BatchError E) (Text × List J)
    new_batch_request first rest = do items ← new_items (first ∷ rest); ok (first.base_url, items)

    -- What the runner of a batch calls: the factory, the call and the conversion of its answer. A
    -- batch is not empty.
    unfoldable pub community_upstream {ℓ} :
        {A : Type ℓ}
        → (A → Text × List J → Result E (List (BatchResponseItem J)))
        → Upstream A HttpRequest Response (BatchError E)
    unfolding new_items item_response
    community_upstream execute_rpc args [] = ok []
    community_upstream execute_rpc args (first ∷ rest) = do
      request ← new_batch_request first rest
      elim (execute_rpc args request) [
        | err e ↦ err (upstream e)
        | ok items ↦ ok (map item_response items)
      ]
