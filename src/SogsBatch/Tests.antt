-- ===== src/SogsBatch/Tests.antt =====
-- Two requests to a server that answers with what it is sent, in a batch.
use session_cli.Base.{
  ℕ, ◌≡◌, refl, Bool, true, false, List, [], ◌∷◌, map, Option, none, some, Result, ok, get_elem?,
  if◌then◌else◌,
}
use session_cli.Base.Assoc.{lookup}
use session_cli.Base.Text.{Text, text_eq, codes}
use session_cli.Batcher.{Pending, Batch, answer, fail_all, run_batch}
use session_cli.HttpCache.{Response}
use session_cli.SogsBatch.{
  Encoding, BatchResponseItem, HttpRequest, invalid_json, is_json, new_batch_request_item,
  community_upstream,
}
use session_cli.SogsBatch.Items.{Reading, Received, read_item, carried, header_text}
use session_cli.SogsBatch.Own.{
  Content, bytes, MediaTypes, respond, run_batch-own, run_batch-invalid,
}

data Json : Type 0 where
  text : Text → Json
  empty : Json
  field : Text → Json → Json → Json

unfoldable get_field : Text → Json → Option Json
get_field j (field k v m) = if text_eq k j then some v else get_field j m
get_field j _ = none

abbrev text_of : Json → Option Text
text_of (text t) = some t
text_of _ = none

-- Only `0` is a JSON text.
unfoldable parsed : List ℕ → Option Json
parsed s = if text_eq s (codes "0") then some (text s) else none

abbrev toy : Encoding Json Json Bool
toy = record {
  string = text;
  as_string = text_of;
  object = λ m. m;
  empty_map = empty;
  insert = field;
  to_string = λ j. codes "0";
  from_slice = parsed;
  encode_base64 = λ b. b;
  decode_base64 = λ t. some t;
  to_str = λ v. some v;
  parse_mime = λ t. some (text_eq t (codes "application/json"));
  is_application_json = λ m. m;
  application_octet_stream = false;
  mime_header = λ m. some (codes "text/plain");
}

toy_reading : Reading toy
unfolding get_field
toy_reading = record {
  get = get_field;
  as_object = λ j. some j;
  get-empty = λ k. refl;
  get-insert = λ k j v m. refl;
  as_object-object = λ m. refl;
  as_string-string = λ t. refl;
  read-base64 = λ b. refl;
}

toy_media : MediaTypes toy
unfolding text_eq
toy_media = record { json = true; parse-json = refl; json-json = refl; octet_stream-json = refl }

abbrev echo : Received → ℕ × Content Json
echo d = (200, bytes (codes "text/plain") d.body)

abbrev request : Text → List ℕ → ℕ → Pending ℕ HttpRequest
request content_type body caller = record {
  args = 1;
  input = record {
    base_url = codes "http://example.com/";
    request = record {
      method = codes "POST";
      path_and_query = some (codes "/room/one/message");
      headers = (codes "content-type", content_type) ∷ [];
      body = body;
    };
    can_batch = true;
  };
  caller = caller;
}

abbrev plain : ℕ → Pending ℕ HttpRequest
plain caller = request (codes "text/plain") (caller ∷ 8 ∷ []) caller

abbrev received : Received
received = record {
  method = codes "POST";
  path = codes "/room/one/message";
  header = header_text toy_reading (plain 5).input.request.headers;
  body = 5 ∷ 8 ∷ [];
}

abbrev both : Batch ℕ HttpRequest
both = record { deadline = 10; head = plain 4; rest = plain 5 ∷ [] }

abbrev echoing : ℕ → Text × List Json → Result ℕ (List (BatchResponseItem Json))
echoing args (url, items) = ok (map (λ j. respond toy echo (read_item toy_reading j)) items)

plain_carried : (c : ℕ) → (d : Received) × (carried toy_reading (plain c).input.request ≡ some d)
unfolding carried is_json text_eq lookup
plain_carried c = (_, refl)

received_carried : carried toy_reading (plain 5).input.request ≡ some received
unfolding carried is_json text_eq lookup
received_carried = refl

run_batch-own_example :
    (r : Response) × (get_elem? (run_batch (community_upstream toy echoing) both) 1
      ≡ some (5, answer r))
    × (r.status ≡ 200)
    × (r.body ≡ 5 ∷ 8 ∷ [])
unfolding text_eq
run_batch-own_example =
    run_batch-own toy toy_reading toy_media echo echoing (λ args url items. refl) both 1 (plain 5)
      received (plain_carried 4, (plain_carried 5, tt)) refl received_carried refl

abbrev broken : Pending ℕ HttpRequest
broken = request (codes "application/json") (codes "no") 6

abbrev with_broken : Batch ℕ HttpRequest
with_broken = record { deadline = 10; head = plain 4; rest = broken ∷ [] }

broken_invalid : new_batch_request_item toy broken.input.request ≡ none
unfolding new_batch_request_item is_json text_eq parsed lookup
broken_invalid = refl

run_batch-invalid_example :
    run_batch (community_upstream toy echoing) with_broken
    ≡ fail_all {O = Response} invalid_json (4 ∷ 6 ∷ [])
run_batch-invalid_example = run_batch-invalid toy echoing with_broken 1 broken refl broken_invalid
