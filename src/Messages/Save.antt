-- ===== src/Messages/Save.antt =====
-- `save_messages`: what it keeps, and that saving twice is saving once.
use mathlib.Core.Path.{subst}
use mathlib.Core.Logic.{◌⊎◌}
use session_cli.Base.{
  ℕ, ◌+◌, ◌≡◌, refl, sym, ap, ◌∙◌, Bool, true, false, ◌||◌, List, [], ◌∷◌, ◌++◌, Option, none, some,
  arith, append-nil, append_assoc, Bool-cases, inl, inr,
}
use session_cli.Base.Text.{
  Text, text_eq_refl, text_eq_symm, eq_ignore_ascii_case_refl, eq_ignore_ascii_case_symm,
}
use session_cli.Messages.{
  Message, Row, Table, same_server_id, conflicts, any_conflict, inserted, insert_or_ignore,
  save_messages,
}

same_self : (o : Option Text) → same_server_id o o ≡ (elim o [ none ↦ false | some _ ↦ true ])
same_self none = refl
same_self (some t) = text_eq_refl t

same_symm : (a b : Option Text) → same_server_id a b ≡ same_server_id b a
same_symm (some a) (some b) = text_eq_symm a b
same_symm none none = refl
same_symm none (some b) = refl
same_symm (some a) none = refl

module _ {ℓ} {C : Type ℓ} where
  abbrev pub has_server_id : Message C → Bool
  has_server_id m = elim m.server_id [ none ↦ false | some _ ↦ true ]

  abbrev pub AllHaveServerId : List (Message C) → Type 0
  AllHaveServerId [] = Unit
  AllHaveServerId (m ∷ ms) = (has_server_id m ≡ true) × AllHaveServerId ms

  -- The statement skips this message.
  abbrev pub skips : Message C → Table C → Bool
  skips m t = any_conflict m t.rows

  any_conflict-append :
      (m : Message C) (xs ys : List (Row C))
      → any_conflict m (xs ++ ys) ≡ (any_conflict m xs || any_conflict m ys)
  unfolding any_conflict
  any_conflict-append m [] ys = refl
  any_conflict-append m (x ∷ xs) ys = ground (arith, any_conflict-append m xs ys)

  conflicts-inserted :
      (m : Message C) (id : ℕ) → has_server_id m ≡ true → conflicts m (inserted id m) ≡ true
  unfolding conflicts
  conflicts-inserted m id h =
      ground (arith, eq_ignore_ascii_case_refl m.repository, same_self m.server_id)

  -- Once inserted or skipped, a message with a server id is skipped.
  pub skips-insert :
      (m : Message C) (t : Table C) → has_server_id m ≡ true → skips m (insert_or_ignore m t) ≡ true
  unfolding insert_or_ignore any_conflict
  skips-insert m t h = ground (
    arith,
    any_conflict-append m t.rows (inserted t.next_id m ∷ []),
    conflicts-inserted m t.next_id,
  )

  -- What is skipped stays skipped.
  skips-keeps :
      (m n : Message C) (t : Table C) → skips m t ≡ true → skips m (insert_or_ignore n t) ≡ true
  unfolding insert_or_ignore
  skips-keeps m n t h = ground (arith, any_conflict-append m t.rows (inserted t.next_id n ∷ []))

  pub save-keeps :
      (m : Message C) (ms : List (Message C)) (t : Table C)
      → skips m t ≡ true
      → skips m (save_messages ms t) ≡ true
  unfolding save_messages
  save-keeps m [] t h = h
  save-keeps m (n ∷ ms) t h = save-keeps m ms (insert_or_ignore n t) (skips-keeps m n t h)

  abbrev AllSkip : List (Message C) → Table C → Type 0
  AllSkip [] t = Unit
  AllSkip (m ∷ ms) t = (skips m t ≡ true) × AllSkip ms t

  save-AllSkip :
      (ms : List (Message C)) (t : Table C) → AllHaveServerId ms → AllSkip ms (save_messages ms t)
  unfolding save_messages
  save-AllSkip [] t h = tt
  save-AllSkip (m ∷ ms) t (h, hs) = (
    save-keeps m ms (insert_or_ignore m t) (skips-insert m t h),
    save-AllSkip ms (insert_or_ignore m t) hs,
  )

  save_skipped : (ms : List (Message C)) (t : Table C) → AllSkip ms t → save_messages ms t ≡ t
  unfolding save_messages insert_or_ignore
  save_skipped [] t h = refl
  save_skipped (m ∷ ms) t h = rw h.0 (save_skipped ms t h.1)

  -- Saving the same messages, with server ids, a second time changes nothing.
  pub save_messages_idem :
      (ms : List (Message C)) (t : Table C)
      → AllHaveServerId ms
      → save_messages ms (save_messages ms t) ≡ save_messages ms t
  save_messages_idem ms t h = save_skipped ms (save_messages ms t) (save-AllSkip ms t h)

  abbrev added : Message C → Table C → Table C
  added m t = record { rows = t.rows ++ inserted t.next_id m ∷ []; next_id = t.next_id + 1 }

  -- The two outcomes of the statement.
  insert-cases :
      (m : Message C) (t : Table C)
      → (insert_or_ignore m t ≡ t)
        ⊎ ((insert_or_ignore m t ≡ added m t) × (any_conflict m t.rows ≡ false))
  unfolding insert_or_ignore
  insert-cases m t = elim (Bool-cases (skips m t)) [
    | inl s ↦ inl (rw s)
    | inr n ↦ inr (rw n, ground arith)
  ]

  rows-insert :
      (m : Message C) (t : Table C)
      → (new : List (Row C)) × ((insert_or_ignore m t).rows ≡ t.rows ++ new)
  rows-insert m t = elim (insert-cases m t) [
    | inl e ↦ ([], rw e (sym (append-nil t.rows)))
    | inr (e, _) ↦ (inserted t.next_id m ∷ [], rw e)
  ]

  -- Rows that were there stay as they are, in place: new rows follow them.
  pub rows-save :
      (ms : List (Message C)) (t : Table C)
      → (new : List (Row C)) × ((save_messages ms t).rows ≡ t.rows ++ new)
  unfolding save_messages
  rows-save [] t = ([], sym (append-nil t.rows))
  rows-save (m ∷ ms) t =
      let (first, e) = rows-insert m t in
      let (rest, f) = rows-save ms (insert_or_ignore m t) in
      (first ++ rest, f ∙ ap (λ xs. xs ++ rest) e ∙ append_assoc t.rows first rest)

  -- No two rows agree in repository, up to case, and in a server id that is set.
  abbrev pub IsUnique : List (Row C) → Type 0
  IsUnique [] = Unit
  IsUnique (r ∷ rs) = (any_conflict r.message rs ≡ false) × IsUnique rs

  conflicts_symm :
      (m : Message C) (r : Row C) (id : ℕ) → conflicts r.message (inserted id m) ≡ conflicts m r
  unfolding conflicts
  conflicts_symm m r id =
      rw (eq_ignore_ascii_case_symm r.message.repository m.repository)
        (rw (same_symm r.message.server_id m.server_id))

  IsUnique-append :
      (m : Message C) (id : ℕ) (rs : List (Row C))
      → IsUnique rs
      → any_conflict m rs ≡ false
      → IsUnique (rs ++ inserted id m ∷ [])
  unfolding any_conflict
  IsUnique-append m id [] u h = (refl, tt)
  IsUnique-append m id (r ∷ rs) u h = (
    ground (arith, any_conflict-append r.message rs (inserted id m ∷ []), conflicts_symm m r id),
    IsUnique-append m id rs u.1 (ground arith),
  )

  insert-IsUnique :
      (m : Message C) (t : Table C) → IsUnique t.rows → IsUnique (insert_or_ignore m t).rows
  insert-IsUnique m t u = elim (insert-cases m t) [
    | inl e ↦ subst (λ (x : Table C). IsUnique x.rows) (sym e) u
    | inr (e, n) ↦
        subst (λ (x : Table C). IsUnique x.rows) (sym e) (IsUnique-append m t.next_id t.rows u n)
  ]

  -- Saving messages keeps the rows unique.
  pub save-IsUnique :
      (ms : List (Message C)) (t : Table C) → IsUnique t.rows → IsUnique (save_messages ms t).rows
  unfolding save_messages
  save-IsUnique [] t u = u
  save-IsUnique (m ∷ ms) t u = save-IsUnique ms (insert_or_ignore m t) (insert-IsUnique m t u)
