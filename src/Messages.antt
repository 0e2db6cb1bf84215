-- ===== src/Messages.antt =====
-- libsession-ui-core/src/db/messages.rs: the table of messages and its statements.
-- A table is the list of its rows in order of insertion. The unique index and the checks are those
-- of libsession-ui-core/src/db/migrations/001-initial/10-messages.sql; the columns that SQLite
-- computes from the others and `mentions`, which holds the matches of a regular expression, are left out. Content is any type: it is stored and not looked into.
pub mod Pending
pub mod Save
pub mod Deletion
mod Tests
use session_cli.Base.{
  ℕ, ◌+◌, Bool, true, false, ◌&&◌, ◌||◌, List, [], ◌∷◌, ◌++◌, map, Option, none, some, leb, ◌==◌,
  if◌then◌else◌,
}
use session_cli.Base.Text.{Text, codes, text_eq, eq_ignore_ascii_case}

pub data MessageSyncState : Type 0 where
  queued permanently_failed failed : MessageSyncState

pub data DeleteState : Type 0 where
  deleted_locally deleted : DeleteState

-- `AsRefStr` and `Display` of the state, and the values that the checks of the table allow.
unfoldable pub as_ref : MessageSyncState → Text
as_ref queued = codes "Queued"
as_ref permanently_failed = codes "PermanentlyFailed"
as_ref failed = codes "Failed"

pub record Message {ℓ} (C : Type ℓ) : Type ℓ where
  pub repository : Text
  pub server_id : Option Text
  pub content : C
  pub sender : Text
  pub receiver : Text
  pub created_at : ℕ
  pub sent_at : Option ℕ
  pub expiration_at : Option ℕ

pub record Row {ℓ} (C : Type ℓ) : Type ℓ where
  pub id : ℕ
  pub message : Message C
  pub delete_state : Option DeleteState
  pub sync_state : Option MessageSyncState
  pub send_state : Option MessageSyncState

pub record Table {ℓ} (C : Type ℓ) : Type ℓ where
  pub rows : List (Row C)
  -- AUTOINCREMENT
  pub next_id : ℕ

-- `=` on a nullable column: NULL is not equal to anything.
abbrev pub is_state : Option MessageSyncState → Text → Bool
is_state none t = false
is_state (some s) t = text_eq (as_ref s) t

abbrev pub same_server_id : Option Text → Option Text → Bool
same_server_id (some a) (some b) = text_eq a b
same_server_id _ _ = false

abbrev pub one_of : Text → List Text → Bool
one_of t [] = false
one_of t (x ∷ xs) = text_eq t x || one_of t xs

abbrev pub server_id_in : Option Text → List Text → Bool
server_id_in none ids = false
server_id_in (some i) ids = one_of i ids

-- SET … = 'Queued' WHERE … IN ('Failed')
abbrev pub requeued : Option MessageSyncState → Option MessageSyncState
requeued s = if is_state s (codes "Failed") then some queued else s

module _ {ℓ} {C : Type ℓ} where
  -- The unique index on (repository, server_id); `repository` is compared without case.
  unfoldable pub conflicts : Message C → Row C → Bool
  conflicts m r =
      eq_ignore_ascii_case m.repository r.message.repository
      && same_server_id m.server_id r.message.server_id

  unfoldable pub any_conflict : Message C → List (Row C) → Bool
  any_conflict m [] = false
  any_conflict m (r ∷ rs) = conflicts m r || any_conflict m rs

  -- The statement names no `sent_at`, so that column stays NULL.
  abbrev pub inserted : ℕ → Message C → Row C
  inserted id m = record {
    id = id;
    message = record m { sent_at = none };
    delete_state = none;
    sync_state = none;
    send_state = none;
  }

  -- INSERT OR IGNORE of one message. The check of `sync_state`, which is not among the inserted
  -- columns, is NULL where there is no server id, and so does not fail; nor are two rows without a
  -- server id the same in the index.
  unfoldable pub insert_or_ignore : Message C → Table C → Table C
  insert_or_ignore m t =
      if any_conflict m t.rows
      then t
      else record { rows = t.rows ++ inserted t.next_id m ∷ []; next_id = t.next_id + 1 }

  unfoldable pub save_messages : List (Message C) → Table C → Table C
  save_messages [] t = t
  save_messages (m ∷ ms) t = save_messages ms (insert_or_ignore m t)

  unfoldable pub requeue_message : ℕ → Table C → Table C
  requeue_message id t = record t {
    rows =
        map
          (λ r.
            if r.id == id
            then record r { send_state = requeued r.send_state; sync_state = requeued r.sync_state }
            else r)
          t.rows;
  }

  unfoldable pub without_server_ids : List Text → List (Row C) → List (Row C)
  without_server_ids ids [] = []
  without_server_ids ids (r ∷ rs) =
      let rest = without_server_ids ids rs in
      if server_id_in r.message.server_id ids then rest else r ∷ rest

  unfoldable pub delete_messages_by_server_ids : List Text → Table C → Table C
  unfolding without_server_ids
  delete_messages_by_server_ids ids t = record t { rows = without_server_ids ids t.rows }

  unfoldable pub mark_deleted : List Text → DeleteState → Row C → Row C
  mark_deleted ids s r =
      if server_id_in r.message.server_id ids then record r { delete_state = some s } else r

  unfoldable pub update_message_delete_state : List Text → DeleteState → Table C → Table C
  unfolding mark_deleted
  update_message_delete_state ids s t = record t { rows = map (mark_deleted ids s) t.rows }

  -- WHERE m.repository = ? AND m.send_state = 'QUEUED' OR m.sync_state = 'QUEUED'
  unfoldable pub is_pending : Text → Row C → Bool
  is_pending repository r =
      eq_ignore_ascii_case r.message.repository repository && is_state r.send_state (codes "QUEUED")
      || is_state r.sync_state (codes "QUEUED")

  -- ORDER BY m.created_at
  unfoldable pub insert_by_created : Row C → List (Row C) → List (Row C)
  insert_by_created r [] = r ∷ []
  insert_by_created r (x ∷ xs) =
      let rest = insert_by_created r xs in
      if leb r.message.created_at x.message.created_at then r ∷ x ∷ xs else x ∷ rest

  -- The rows of `get_pending_message_query`.
  unfoldable pub get_pending_messages : Text → List (Row C) → List (Row C)
  get_pending_messages repository [] = []
  get_pending_messages repository (r ∷ rs) =
      let rest = get_pending_messages repository rs in
      if is_pending repository r then insert_by_created r rest else rest
