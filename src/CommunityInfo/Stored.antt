-- ===== src/CommunityInfo/Stored.antt =====
-- What the worker of a room's description leaves in the settings.
use session_cli.Base.{
  ◌≡◌, refl, ap, sym, ◌∙◌, List, [], ◌∷◌, Option, none, some, Result, ok, err, Result-cases,
  Option-cases, inl, inr,
}
use session_cli.Base.Int.{ℤ}
use session_cli.Base.Text.{Text, text_eq_refl}
use session_cli.Settings.{Settings, Setting, load_setting, save-writes, load-save}
use session_cli.CommunityInfo.{
  InfoTurn, InfoState, whole_room, fetch, keep_info, info_turn, info_turns, start_at,
  sync_community_info,
}

module _ {ℓ κ μ} {E : Type ℓ} {V : Type κ} {I : Type μ} (setting : Setting E V I)
    (info_updates : I → ℤ) (room : Text) (community_id : Text) where
  -- A reference worker, which keeps no number: each turn asks for what is newer than the stored
  -- description, and stores what is answered, as it will be read.
  abbrev pub newer : Result E (Option I) → Option I → Option I
  newer (ok (some i)) found = some (setting.reread i)
  newer (ok none) found = found
  newer (err e) found = found

  abbrev pub asked : InfoTurn E I → Option I → Result E (Option I)
  asked turn none = whole_room (turn.get_room room)
  asked turn (some i) = turn.poll_room_info room (info_updates i)

  abbrev pub stored_after : List (InfoTurn E I) → Option I → Option I
  stored_after [] found = found
  stored_after (turn ∷ turns) found = stored_after turns (newer (asked turn found) found)

  abbrev pub NoFaults : List (InfoTurn E I) → Type ℓ
  NoFaults [] = Unit
  NoFaults (turn ∷ turns) = (turn.fault ≡ none) × NoFaults turns

  abbrev updates_of : Option I → Option ℤ
  updates_of none = none
  updates_of (some i) = some (info_updates i)

  -- The number kept is that of the stored description.
  record InStep (found : Option I) (s : InfoState V) : Type (ℓ ⊔ κ ⊔ μ) where
    loaded : load_setting setting community_id s.table ≡ ok found
    number : s.last_room_update ≡ updates_of found

  fetch-asked :
      (turn : InfoTurn E I) (found : Option I)
      → fetch setting info_updates room community_id turn (updates_of found) ≡ asked turn found
  unfolding fetch
  fetch-asked turn none = refl
  fetch-asked turn (some i) = refl

  abbrev fetched : InfoTurn E I → InfoState V → Result E (Option I)
  fetched turn s = fetch setting info_updates room community_id turn s.last_room_update

  turn_err :
      (turn : InfoTurn E I) (s : InfoState V) (e : E)
      → fetched turn s ≡ err e
      → info_turn setting info_updates room community_id turn s ≡ (s, err e)
  unfolding info_turn
  turn_err turn s e f = rw (info_turn, f)

  turn_none :
      (turn : InfoTurn E I) (s : InfoState V)
      → fetched turn s ≡ ok none
      → info_turn setting info_updates room community_id turn s ≡ (s, ok tt)
  unfolding info_turn
  turn_none turn s f = rw (info_turn, f)

  turn_some :
      (turn : InfoTurn E I) (s : InfoState V) (info : I)
      → fetched turn s ≡ ok (some info)
      → info_turn setting info_updates room community_id turn s
        ≡ keep_info setting info_updates room community_id turn s info
  unfolding info_turn
  turn_some turn s info f = rw (info_turn, f)

  keep_info-fault :
      (turn : InfoTurn E I) (s : InfoState V) (info : I) (e : E)
      → turn.fault ≡ some e
      → keep_info setting info_updates room community_id turn s info
        ≡ (record s { last_room_update = some (info_updates info) }, err e)
  unfolding keep_info
  keep_info-fault turn s info e g = rw (keep_info, g)

  keep_info-InStep :
      (turn : InfoTurn E I) (s : InfoState V) (info : I)
      → ((i : I) → (v : V) × (setting.to_sql i ≡ ok v))
      → ((i : I) → info_updates (setting.reread i) ≡ info_updates i)
      → turn.fault ≡ none
      → InStep
          (some (setting.reread info))
          (keep_info setting info_updates room community_id turn s info).0
  unfolding keep_info
  keep_info-InStep turn s info writes keeps fine =
      let (v, w) = writes info in
      let (table, f) = save-writes setting community_id info s.table w in
      rw (fine, f)
        (record {
          loaded =
              load-save setting community_id community_id info s.table table f
              ∙ rw (text_eq_refl community_id);
          number = ap some (sym (keeps info));
        })

  start_at-InStep :
      (table : Settings V) (found : Option I)
      → load_setting setting community_id table ≡ ok found
      → InStep found (start_at setting info_updates room community_id table found)
  start_at-InStep table none e = record { loaded = e; number = refl }
  start_at-InStep table (some i) e = record { loaded = e; number = refl }

  unchanged_turn :
      (turn : InfoTurn E I) (info : I) (s : InfoState V)
      → s.last_room_update ≡ some (info_updates info)
      → turn.poll_room_info room (info_updates info) ≡ ok none
      → (info_turn setting info_updates room community_id turn s).0 ≡ s
  unfolding fetch
  unchanged_turn turn info s e h =
      ap (λ p. p.0)
        (turn_none turn s (ap (fetch setting info_updates room community_id turn) e ∙ h))

  info_turn-InStep :
      (turn : InfoTurn E I) (found : Option I) (s : InfoState V)
      → ((i : I) → (v : V) × (setting.to_sql i ≡ ok v))
      → ((i : I) → info_updates (setting.reread i) ≡ info_updates i)
      → turn.fault ≡ none
      → InStep found s
      → InStep
          (newer (asked turn found) found)
          (info_turn setting info_updates room community_id turn s).0
  info_turn-InStep turn found s writes keeps fine step =
      let q : fetched turn s ≡ asked turn found =
        ap (fetch setting info_updates room community_id turn) step.number
        ∙ fetch-asked turn found in
      elim (Result-cases (asked turn found)) [
        | inr (e, f) ↦ rw (f, turn_err turn s e (q ∙ f)) step
        | inl (r, f) ↦ elim (Option-cases r) [
          | inl g ↦ rw (f, g, turn_none turn s (q ∙ f ∙ ap ok g)) step
          | inr (info, g) ↦
              rw (f, g, turn_some turn s info (q ∙ f ∙ ap ok g))
                (keep_info-InStep turn s info writes keeps fine)
        ]
      ]

  info_turns-InStep :
      (turns : List (InfoTurn E I)) (found : Option I) (s : InfoState V)
      → ((i : I) → (v : V) × (setting.to_sql i ≡ ok v))
      → ((i : I) → info_updates (setting.reread i) ≡ info_updates i)
      → NoFaults turns
      → InStep found s
      → InStep
          (stored_after turns found)
          (info_turns setting info_updates room community_id turns s)
  unfolding info_turns
  info_turns-InStep [] found s writes keeps fine step = step
  info_turns-InStep (turn ∷ turns) found s writes keeps (f, fs) step =
      info_turns-InStep turns (newer (asked turn found) found)
        (info_turn setting info_updates room community_id turn s).0 writes keeps fs
        (info_turn-InStep turn found s writes keeps f step)

  -- While the database has no fault, and descriptions can be written and read back with the number of
  -- their updates, the worker leaves in the settings what the reference worker has, which asks by the
  -- stored description in each turn and stores each answer as it will be read, whatever the server
  -- answers.
  pub sync_community_info-stored :
      (turns : List (InfoTurn E I)) (table : Settings V) {found : Option I}
      → ((i : I) → (v : V) × (setting.to_sql i ≡ ok v))
      → ((i : I) → info_updates (setting.reread i) ≡ info_updates i)
      → NoFaults turns
      → load_setting setting community_id table ≡ ok found
      → (s : InfoState V) × (sync_community_info setting info_updates room community_id turns table
          ≡ ok s)
        × (load_setting setting community_id s.table ≡ ok (stored_after turns found))
  unfolding sync_community_info
  sync_community_info-stored turns table {found} writes keeps fine e =
      let s = start_at setting info_updates room community_id table found in
      (
        info_turns setting info_updates room community_id turns s,
        rw (sync_community_info, e),
        (info_turns-InStep turns found s writes keeps fine (start_at-InStep table found e)).loaded,
      )

  -- The server has nothing newer than a description.
  abbrev pub NothingNewer : I → List (InfoTurn E I) → Type (ℓ ⊔ μ)
  NothingNewer info [] = Unit
  NothingNewer info (turn ∷ turns) =
      (turn.poll_room_info room (info_updates info) ≡ ok none) × NothingNewer info turns

  unchanged_turns :
      (turns : List (InfoTurn E I)) (info : I) (s : InfoState V)
      → s.last_room_update ≡ some (info_updates info)
      → NothingNewer info turns
      → info_turns setting info_updates room community_id turns s ≡ s
  unfolding info_turns
  unchanged_turns [] info s e h = refl
  unchanged_turns (turn ∷ turns) info s e (h, hs) =
      ap (info_turns setting info_updates room community_id turns) (unchanged_turn turn info s e h)
      ∙ unchanged_turns turns info s e hs

  -- Where the saving of a description meets a fault, the number of its updates is kept all the same:
  -- as long as the server has nothing newer, no later turn saves it, whether or not the database is
  -- well, and the settings stay as they were before the fault.
  pub info_turns-lost :
      (turn : InfoTurn E I) (turns : List (InfoTurn E I)) (s : InfoState V) (info : I) (e : E)
      → fetch setting info_updates room community_id turn s.last_room_update ≡ ok (some info)
      → turn.fault ≡ some e
      → NothingNewer info turns
      → (info_turns setting info_updates room community_id (turn ∷ turns) s).table ≡ s.table
  unfolding info_turns
  info_turns-lost turn turns s info e f g h =
      let t : info_turn setting info_updates room community_id turn s
          ≡ (record s { last_room_update = some (info_updates info) }, err e) =
        turn_some turn s info f ∙ keep_info-fault turn s info e g in
      let kept = record s { last_room_update = some (info_updates info) } in
      ap (λ p. (info_turns setting info_updates room community_id turns p.0).table) t
      ∙ ap (λ u. u.table) (unchanged_turns turns info kept refl h)
