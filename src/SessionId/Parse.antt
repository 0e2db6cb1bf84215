-- ===== src/SessionId/Parse.antt =====
-- Reading an id from text, and showing it.
use mathlib.Core.Path.{subst}
use session_cli.Base.{
  ℕ, ◌≡◌, refl, sym, true, false, List, [], ◌∷◌, ◌++◌, some, ok, err, length, drop, arith,
  Option-cases, Result-cases, Bool-cases, inl, inr, ◌⊎◌,
}
use session_cli.Base.Text.{Text}
use session_cli.Key.{IsBytes, HexCodec, from_binary, hex_text}
use session_cli.SessionId.{
  IdType, new, id_eq, starts_with, Kind, prefix, as_str, from_str, of_kind, session_id_as_str,
  first_of_kinds, all_kinds, session_id_from_str, key_len, expecting_prefix,
}

starts_with-append : (p s : Text) → starts_with p (p ++ s) ≡ true
unfolding starts_with
starts_with-append [] s = refl
starts_with-append (c ∷ p) s = ground (arith, starts_with-append p s)

drop-append : (p s : Text) → drop (length p) (p ++ s) ≡ s
drop-append [] s = refl
drop-append (c ∷ p) s = drop-append p s

module _ (codec : HexCodec) where
  from_str-display :
      (k : Kind) (s : Text) (id : IdType)
      → from_str codec k s ≡ ok id
      → (id.display ≡ some s) × (starts_with (prefix k) s ≡ true)
  unfolding from_str
  from_str-display k s id h = elim (Bool-cases (starts_with (prefix k) s)) [
    | inl p ↦ elim (Option-cases (codec.decode_to_slice (drop (length (prefix k)) s) key_len)) [
      | inl e ↦ ground arith
      | inr (b, e) ↦ (ground arith, p)
    ]
    | inr n ↦ ground arith
  ]

  -- An id that was read from a text shows exactly that text.
  pub as_str-from_str :
      (k : Kind) (s : Text) (id : IdType) → from_str codec k s ≡ ok id → as_str codec k id ≡ s
  unfolding as_str
  as_str-from_str k s id h = let (shown, _) = from_str-display k s id h in ground arith

  read_back :
      (b : List ℕ)
      → IsBytes b
      → length b ≡ key_len
      → codec.decode_to_slice (codec.encode b) key_len ≡ some b
  read_back b bytes n =
      subst (λ m. codec.decode_to_slice (codec.encode b) m ≡ some b) n (codec.decode-encode b bytes)

  -- The text of an id of one kind with a key of 32 bytes is read back as an id with that key.
  pub from_str-as_str :
      (k : Kind) (b : List ℕ)
      → IsBytes b
      → length b ≡ key_len
      → from_str codec k (as_str codec k (new (from_binary b)))
        ≡ ok (record {
          backing_key = from_binary b;
          display = some (as_str codec k (new (from_binary b)));
        })
  unfolding from_str as_str hex_text
  from_str-as_str k b bytes n =
      rw (starts_with-append (prefix k) (codec.encode b))
        (rw (drop-append (prefix k) (codec.encode b)) (rw (sym n, codec.decode-encode b bytes)))

  first_of_kinds-from_str :
      (ks : List Kind) (s : Text) (k : Kind) (id : IdType)
      → first_of_kinds codec ks s ≡ ok (of_kind k id)
      → from_str codec k s ≡ ok id
  unfolding first_of_kinds
  first_of_kinds-from_str [] s k id h = ground arith
  first_of_kinds-from_str (j ∷ ks) s k id h = elim (Result-cases (from_str codec j s)) [
    | inl (a, e) ↦
        let same : (j ≡ k) × (a ≡ id) = ground arith in
        subst (λ i. from_str codec k s ≡ ok i) (same.1)
          (subst (λ m. from_str codec m s ≡ ok a) (same.0) e)
    | inr (x, e) ↦ first_of_kinds-from_str ks s k id (ground (arith, h, e))
  ]

  other_kinds :
      (k : Kind) (b : List ℕ) (j : Kind)
      → (j ≡ k) ⊎ (from_str codec j (as_str codec k (new (from_binary b))) ≡ err expecting_prefix)
  unfolding from_str as_str hex_text starts_with
  other_kinds Kind.individual b Kind.individual = inl refl
  other_kinds Kind.individual b Kind.group = inr refl
  other_kinds Kind.individual b Kind.blind15 = inr refl
  other_kinds Kind.individual b Kind.blind25 = inr refl
  other_kinds Kind.group b Kind.individual = inr refl
  other_kinds Kind.group b Kind.group = inl refl
  other_kinds Kind.group b Kind.blind15 = inr refl
  other_kinds Kind.group b Kind.blind25 = inr refl
  other_kinds Kind.blind15 b Kind.individual = inr refl
  other_kinds Kind.blind15 b Kind.group = inr refl
  other_kinds Kind.blind15 b Kind.blind15 = inl refl
  other_kinds Kind.blind15 b Kind.blind25 = inr refl
  other_kinds Kind.blind25 b Kind.individual = inr refl
  other_kinds Kind.blind25 b Kind.group = inr refl
  other_kinds Kind.blind25 b Kind.blind15 = inr refl
  other_kinds Kind.blind25 b Kind.blind25 = inl refl

  first_of_kinds-only :
      (k : Kind) (s : Text) (id : IdType)
      → ((j : Kind) → (j ≡ k) ⊎ (from_str codec j s ≡ err expecting_prefix))
      → from_str codec k s ≡ ok id
      → first_of_kinds codec all_kinds s ≡ ok (of_kind k id)
  unfolding first_of_kinds
  first_of_kinds-only Kind.individual s id others h = ground (arith, h)
  first_of_kinds-only Kind.group s id others h = ground (arith, others Kind.individual, h)
  first_of_kinds-only Kind.blind15 s id others h =
      ground (arith, others Kind.individual, others Kind.group, h)
  first_of_kinds-only Kind.blind25 s id others h =
      ground (arith, others Kind.individual, others Kind.group, others Kind.blind15, h)

  -- The text of any session id with a key of 32 bytes is read back as the same kind, with an equal
  -- key, although the kinds are tried one after another.
  pub session_id_from_str-as_str :
      (k : Kind) (b : List ℕ)
      → IsBytes b
      → length b ≡ key_len
      → session_id_from_str codec (session_id_as_str codec (of_kind k (new (from_binary b))))
        ≡ ok (
            of_kind k (record {
              backing_key = from_binary b;
              display = some (as_str codec k (new (from_binary b)));
            }))
  unfolding session_id_from_str session_id_as_str
  session_id_from_str-as_str k b bytes n =
      first_of_kinds-only k (as_str codec k (new (from_binary b))) _ (other_kinds k b)
        (from_str-as_str k b bytes n)

  -- A session id that was read from a text shows exactly that text, and the text starts with the
  -- prefix of its kind.
  pub session_id_as_str-from_str :
      (s : Text) (k : Kind) (id : IdType)
      → session_id_from_str codec s ≡ ok (of_kind k id)
      → (session_id_as_str codec (of_kind k id) ≡ s) × (starts_with (prefix k) s ≡ true)
  unfolding session_id_from_str session_id_as_str
  session_id_as_str-from_str s k id h =
      let own = first_of_kinds-from_str all_kinds s k id h in
      (as_str-from_str k s id own, (from_str-display k s id own).1)

  -- An id that was read from a text is not equal to a new id with the same key whose text was not
  -- asked for yet.
  pub id_eq-from_str :
      (k : Kind) (s : Text) (id : IdType)
      → from_str codec k s ≡ ok id
      → id_eq id (new id.backing_key) ≡ false
  unfolding id_eq
  id_eq-from_str k s id h = let (shown, _) = from_str-display k s id h in ground arith
