-- ===== src/Reactions.antt =====
-- libsession-ui-core/src/db/community_message_reaction.rs: the table of reactions.
use session_cli.Base.{ℕ, ◌&&◌, List, [], ◌∷◌, map, Option, none, some, ◌==◌, if◌then◌else◌}
use session_cli.Base.Decimal.{decimal}
use session_cli.Base.Int.{ℤ}
use session_cli.Base.Text.{Text, text_eq, eq_ignore_ascii_case}
use session_cli.Messages.{Row, same_server_id, one_of}

pub record CommunityMessageReaction : Type 0 where
  pub index : ℤ
  pub count : ℕ
  pub reactors : List Text

pub record ReactionRow : Type 0 where
  pub message_id : ℕ
  pub emoji : Text
  pub reaction : CommunityMessageReaction

-- SELECT id FROM messages WHERE repository = ? AND server_id = ?
unfoldable pub find_message_id {ℓ} : {C : Type ℓ} → Text → Text → List (Row C) → Option ℕ
find_message_id repository server_id [] = none
find_message_id repository server_id (r ∷ rs) =
    if eq_ignore_ascii_case r.message.repository repository
      && same_server_id r.message.server_id (some server_id)
    then some r.id
    else find_message_id repository server_id rs

-- DELETE … WHERE message_id = ? AND emoji NOT IN …
unfoldable pub delete_absent : ℕ → List Text → List ReactionRow → List ReactionRow
delete_absent message_id emojis [] = []
delete_absent message_id emojis (r ∷ rs) =
    let rest = delete_absent message_id emojis rs in
    if r.message_id == message_id
    then (if one_of r.emoji emojis then r ∷ rest else rest)
    else r ∷ rest

-- INSERT OR REPLACE, by the primary key (message_id, emoji)
unfoldable pub replace_reaction : ReactionRow → List ReactionRow → List ReactionRow
replace_reaction new [] = new ∷ []
replace_reaction new (r ∷ rs) =
    if r.message_id == new.message_id && text_eq r.emoji new.emoji
    then new ∷ rs
    else r ∷ replace_reaction new rs

unfoldable pub replace_reactions :
    ℕ → List (Text × CommunityMessageReaction) → List ReactionRow → List ReactionRow
unfolding replace_reaction
replace_reactions message_id [] rs = rs
replace_reactions message_id ((emoji, reaction) ∷ more) rs =
    replace_reactions message_id more
      (replace_reaction (record { message_id = message_id; emoji = emoji; reaction = reaction }) rs)

unfoldable pub save_community_message_reactions {ℓ} :
    {C : Type ℓ}
    → Text
    → ℕ
    → List (Text × CommunityMessageReaction)
    → List (Row C)
    → List ReactionRow
    → List ReactionRow
unfolding find_message_id delete_absent replace_reactions
save_community_message_reactions community_id message_server_id reactions messages rs =
    elim (find_message_id community_id (decimal message_server_id) messages) [
      | none ↦ rs
      | some message_id ↦
          replace_reactions message_id reactions
            (delete_absent message_id (map (λ r. r.0) reactions) rs)
    ]
