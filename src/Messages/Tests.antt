-- ===== src/Messages/Tests.antt =====
-- The table of messages at concrete rows.
use session_cli.Base.{ℕ, ◌≡◌, refl, List, [], ◌∷◌, Option, none, some}
use session_cli.Base.Text.{Text, codes, text_eq, eq_ignore_ascii_case}
use session_cli.Messages.{
  Message, Row, Table, queued, conflicts, any_conflict, insert_or_ignore, save_messages,
}

abbrev message_in : Text → Option Text → Message ℕ
message_in repository server_id = record {
  repository = repository;
  server_id = server_id;
  content = 7;
  sender = codes "a";
  receiver = [];
  created_at = 1;
  sent_at = none;
  expiration_at = none;
}

abbrev row_in : ℕ → Text → Row ℕ
row_in id repository = record {
  id = id;
  message = message_in repository (some (codes "5"));
  delete_state = none;
  sync_state = none;
  send_state = none;
}

-- Message 5 of two communities.
abbrev two_communities : Table ℕ
two_communities = record {
  rows = row_in 1 (codes "http://a/x") ∷ row_in 2 (codes "http://b/y") ∷ [];
  next_id = 3;
}

abbrev incoming : List (Message ℕ)
incoming =
    message_in (codes "http://A/x") (some (codes "5"))
    ∷ message_in (codes "http://a/x") (some (codes "6"))
    ∷ message_in (codes "http://a/x") none
    ∷ []

-- The first is there up to case; the last, which has no server id, is added as the other is.
two_added : (save_messages incoming two_communities).next_id ≡ 5
unfolding save_messages insert_or_ignore any_conflict conflicts eq_ignore_ascii_case text_eq
two_added = refl

abbrev queued_row : Row ℕ
queued_row = record (row_in 1 (codes "05ab")) { send_state = some queued; sync_state = some queued }
