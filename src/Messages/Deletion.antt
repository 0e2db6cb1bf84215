-- ===== src/Messages/Deletion.antt =====
-- `update_message_delete_state` and `delete_messages_by_server_ids`, across repositories.
use session_cli.Base.{ℕ, ◌∙◌, ◌≡◌, true, false, List, some, arith, get_elem?, get_elem?-map}
use session_cli.Base.Text.{Text}
use session_cli.Messages.{
  Row, Table, DeleteState, one_of, server_id_in, mark_deleted, update_message_delete_state,
}

module _ {ℓ} {C : Type ℓ} where
  -- Marking the server ids of one repository as deleted marks a row of any repository, whichever it
  -- is, whose server id is among them.
  pub update_marks_all_repositories :
      (ids : List Text) (s : DeleteState) (t : Table C) (i : ℕ) (r : Row C) (server_id : Text)
      → get_elem? t.rows i ≡ some r
      → r.message.server_id ≡ some server_id
      → one_of server_id ids ≡ true
      → get_elem? (update_message_delete_state ids s t).rows i
        ≡ some (record r { delete_state = some s })
  unfolding update_message_delete_state
  update_marks_all_repositories ids s t i r server_id at is_id listed =
      get_elem?-map (mark_deleted ids s) t.rows i at ∙ ground arith

  -- A row whose server id is not listed, or that has none, stays as it is.
  pub update_keeps_others :
      (ids : List Text) (s : DeleteState) (t : Table C) (i : ℕ) (r : Row C)
      → get_elem? t.rows i ≡ some r
      → server_id_in r.message.server_id ids ≡ false
      → get_elem? (update_message_delete_state ids s t).rows i ≡ some r
  unfolding update_message_delete_state
  update_keeps_others ids s t i r at unlisted =
      get_elem?-map (mark_deleted ids s) t.rows i at ∙ ground arith
