-- ===== src/SogsBatch/Items.antt =====
-- What a community server reads in the items of a batch, and what is made of its answers.
use session_cli.Base.{
  ℕ, ◌≡◌, refl, ap, Bool, true, false, List, [], ◌∷◌, Option, none, some, arith, Option-cases,
  Bool-cases, inl, inr, if◌then◌else◌,
}
use session_cli.Base.Assoc.{lookup}
use session_cli.Messages.{one_of}
use session_cli.Base.Text.{Text, text_eq, text_eq_symm, text_eq_iff, text_eq_refl, codes}
use session_cli.CommunityAuth.{Request, path_text}
use session_cli.SogsBatch.{
  Encoding, and_then, is_json, header_map, item_head, with_body, new_batch_request_item,
}

-- What the server reads with, and what it relies on: maps, objects and strings as serde_json keeps
-- them, and base64.
pub record Reading {J K M : Type 0} (enc : Encoding J K M) : Type 0 where
  pub get : Text → K → Option J
  pub as_object : J → Option K
  pub get-empty : (k : Text) → get k enc.empty_map ≡ none
  pub get-insert :
      (k j : Text) (v : J) (m : K)
      → get j (enc.insert k v m) ≡ (if text_eq k j then some v else get j m)
  pub as_object-object : (m : K) → as_object (enc.object m) ≡ some m
  pub as_string-string : (t : Text) → enc.as_string (enc.string t) ≡ some t
  pub read-base64 : (b : List ℕ) → enc.decode_base64 (enc.encode_base64 b) ≡ some b

-- A request as the server sees it: the header of a name is its text.
pub record Received : Type 0 where
  pub method : Text
  pub path : Text
  pub header : Text → Option Text
  pub body : List ℕ

module _ {J K M : Type 0} {enc : Encoding J K M} (reading : Reading enc) where
  abbrev text_field : Text → K → Option Text
  text_field k m = and_then (reading.get k m) enc.as_string

  abbrev field_body : Option J → Option J → Option (List ℕ)
  field_body (some value) b64 = some (enc.to_string value)
  field_body none none = some []
  field_body none (some b64) = and_then (enc.as_string b64) enc.decode_base64

  abbrev received : Option Text → Option Text → Option K → Option (List ℕ) → Option Received
  received (some method) (some path) (some headers) (some body) =
      some
        (record { method = method; path = path; header = λ k. text_field k headers; body = body })
  received _ _ _ _ = none

  abbrev read_fields : K → Option Received
  read_fields m =
      received (text_field (codes "method") m) (text_field (codes "path") m)
        (and_then (reading.get (codes "headers") m) reading.as_object)
        (field_body (reading.get (codes "json") m) (reading.get (codes "b64") m))

  unfoldable pub read_item : J → Option Received
  read_item j = and_then (reading.as_object j) read_fields

  -- What a request sent alone would carry: of the values of a header name the first, where it has a
  -- text, and of a body that is JSON its value.
  unfoldable pub header_text : List (Text × List ℕ) → Text → Option Text
  header_text headers k = and_then (lookup text_eq k headers) enc.to_str

  abbrev carried_body : Bool → List ℕ → Option (List ℕ)
  carried_body json [] = some []
  carried_body true (x ∷ body) =
      and_then (enc.from_slice (x ∷ body)) (λ value. some (enc.to_string value))
  carried_body false (x ∷ body) = some (x ∷ body)

  unfoldable pub carried : Request → Option Received
  carried r = and_then (carried_body (is_json enc r.headers) r.body) (λ body. some (record {
    method = r.method;
    path = path_text r;
    header = header_text r.headers;
    body = body;
  }))

  or_else : Option Text → Option Text → Option Text
  or_else (some t) o = some t
  or_else none o = o

  text-insert :
      (k j t : Text) (m : K)
      → text_field j (enc.insert k (enc.string t) m)
        ≡ (if text_eq k j then some t else text_field j m)
  text-insert k j t m = elim (Bool-cases (text_eq k j)) [
    | inl e ↦ rw (reading.get-insert k j (enc.string t) m, e) (reading.as_string-string t)
    | inr e ↦ rw (reading.get-insert k j (enc.string t) m, e) refl
  ]

  -- The map has what it had for the names seen, and for the others their first value.
  get-header_map :
      (seen : List Text) (headers : List (Text × List ℕ)) (acc : K) (k : Text)
      → text_field k (header_map enc seen headers acc) ≡ (
          if one_of k seen
          then text_field k acc
          else or_else (header_text headers k) (text_field k acc))
  unfolding header_map header_text or_else lookup
  get-header_map seen [] acc k = ground arith
  get-header_map seen ((name, value) ∷ headers) acc k =
      let symm = text_eq_symm name k in
      let same : text_eq name k ≡ true → one_of name seen ≡ one_of k seen =
        λ e. ap (λ n. one_of n seen) ((text_eq_iff name k).0 e) in
      elim (Bool-cases (one_of name seen)) [
        | inl s ↦ elim (Bool-cases (text_eq name k)) [
          | inl e ↦ ground (arith, s, e, same e, get-header_map seen headers acc k)
          | inr e ↦ ground (arith, s, e, get-header_map seen headers acc k)
        ]
        | inr s ↦ elim (Option-cases (enc.to_str value)) [
          | inl e ↦ elim (Bool-cases (text_eq name k)) [
            | inl f ↦
                ground (arith, s, e, f, same f, symm, get-header_map (name ∷ seen) headers acc k)
            | inr f ↦ ground (arith, s, e, f, symm, get-header_map (name ∷ seen) headers acc k)
          ]
          | inr (t, e) ↦
              let put = enc.insert name (enc.string t) acc in
              let rest = get-header_map (name ∷ seen) headers put k in
              elim (Bool-cases (text_eq name k)) [
                | inl f ↦ ground (arith, s, e, f, same f, symm, rest, text-insert name k t acc)
                | inr f ↦ ground (arith, s, e, f, symm, rest, text-insert name k t acc)
              ]
        ]
      ]

  -- The fields of an item that are not its body.
  abbrev Heads : Request → K → Type 0
  Heads r m =
      (reading.get (codes "method") m ≡ some (enc.string r.method))
      × (reading.get (codes "path") m ≡ some (enc.string (path_text r)))
      × (reading.get (codes "headers") m
          ≡ some (enc.object (header_map enc [] r.headers enc.empty_map)))

  field-insert :
      (k j : Text) (v : J) (m : K) (o : Option J)
      → text_eq k j ≡ false
      → reading.get j m ≡ o
      → reading.get j (enc.insert k v m) ≡ o
  field-insert k j v m o n e = rw (reading.get-insert k j v m, n) e

  field_self : (k : Text) (v : J) (m : K) → reading.get k (enc.insert k v m) ≡ some v
  field_self k v m = rw (reading.get-insert k k v m, text_eq_refl k) refl

  head-Heads : (r : Request) → Heads r (item_head enc r)
  unfolding text_eq
  head-Heads r = (
    field-insert (codes "headers") (codes "method") _ _ _ refl
        (field-insert (codes "path") (codes "method") _ _ _ refl (field_self (codes "method") _ _)),
    field-insert (codes "headers") (codes "path") _ _ _ refl (field_self (codes "path") _ _),
    field_self (codes "headers") _ _,
  )

  head-none :
      (r : Request) (k : Text)
      → text_eq (codes "headers") k ≡ false
      → text_eq (codes "path") k ≡ false
      → text_eq (codes "method") k ≡ false
      → reading.get k (item_head enc r) ≡ none
  head-none r k h p m = field-insert (codes "headers") k _ _ _ h (
      field-insert (codes "path") k _ _ _ p
        (field-insert (codes "method") k _ _ _ m (reading.get-empty k)))

  header-read :
      (headers : List (Text × List ℕ)) (k : Text)
      → text_field k (header_map enc [] headers enc.empty_map) ≡ header_text headers k
  unfolding or_else
  header-read headers k =
      ground (arith, get-header_map [] headers enc.empty_map k, reading.get-empty k)

  -- Of an item with these heads the server reads the body and what the request says.
  read-Heads :
      (r : Request) (m : K) (body : List ℕ)
      → Heads r m
      → field_body (reading.get (codes "json") m) (reading.get (codes "b64") m) ≡ some body
      → read_item (enc.object m)
        ≡ some (record {
          method = r.method;
          path = path_text r;
          header = header_text r.headers;
          body = body;
        })
  unfolding read_item
  read-Heads r m body (a, b, c) e =
      rw
        (
          reading.as_object-object m,
          a,
          b,
          c,
          reading.as_string-string r.method,
          reading.as_string-string (path_text r),
          reading.as_object-object (header_map enc [] r.headers enc.empty_map),
          e,
        )
        (ap (λ h. some (record { method = r.method; path = path_text r; header = h; body = body }))
          (λ i k. header-read r.headers k i))

  body_field :
      (r : Request) (name : Text) (v : J)
      → text_eq name (codes "method") ≡ false
      → text_eq name (codes "path") ≡ false
      → text_eq name (codes "headers") ≡ false
      → Heads r (enc.insert name v (item_head enc r))
  body_field r name v a b c =
      let (m, p, h) = head-Heads r in
      (
        field-insert name (codes "method") v _ _ a m,
        field-insert name (codes "path") v _ _ b p,
        field-insert name (codes "headers") v _ _ c h,
      )

  item_made :
      (r : Request) (json : Bool) (body : List ℕ)
      → and_then
          (and_then
            (with_body enc json body (item_head enc r))
            (λ fields. some (enc.object fields)))
          read_item
        ≡ and_then (carried_body json body) (λ b. some (record {
          method = r.method;
          path = path_text r;
          header = header_text r.headers;
          body = b;
        }))
  unfolding text_eq
  item_made r json [] = read-Heads r (item_head enc r) [] (head-Heads r) (
      rw (head-none r (codes "json") refl refl refl, head-none r (codes "b64") refl refl refl) refl)
  item_made r true (x ∷ body) = elim (Option-cases (enc.from_slice (x ∷ body))) [
    | inl e ↦ rw e refl
    | inr (v, e) ↦ rw e (
        read-Heads r (enc.insert (codes "json") v (item_head enc r)) (enc.to_string v)
          (body_field r (codes "json") v refl refl refl)
          (rw (field_self (codes "json") v (item_head enc r)) refl))
  ]
  item_made r false (x ∷ body) =
      let v = enc.string (enc.encode_base64 (x ∷ body)) in
      read-Heads r (enc.insert (codes "b64") v (item_head enc r)) (x ∷ body)
        (body_field r (codes "b64") v refl refl refl)
        (rw
          (
            field-insert (codes "b64") (codes "json") v (item_head enc r) none refl
                (head-none r (codes "json") refl refl refl),
            field_self (codes "b64") v (item_head enc r),
            reading.as_string-string (enc.encode_base64 (x ∷ body)),
            reading.read-base64 (x ∷ body),
          )
          refl)

  -- A server reads from the item of a request its method, path, headers and body, as the request has
  -- them; where the body is said to be JSON and is not there is no item.
  pub read_item-new : (r : Request) → and_then (new_batch_request_item enc r) read_item ≡ carried r
  unfolding new_batch_request_item carried
  read_item-new r = item_made r (is_json enc r.headers) r.body
