-- ===== src/Community/Tests.antt =====
-- The worker on concrete pages of a server.
use session_cli.Base.{ℕ, ◌≡◌, refl, true, false, List, [], ◌∷◌, none, some, Result, ok, err}
use session_cli.Base.Int.{pos, ◌≤ℤ◌}
use session_cli.Base.Text.{Text, codes}
use session_cli.Community.Progress.{main_loop-has_earlier}
use session_cli.Community.Save.{saving_messages}
use session_cli.Community.Stored.{AllSeqs, poll_fault, poll_reaches, poll-stored}
use session_cli.Community.Worker.{
  load_earlier, poll, Worker, Server, Page, initial_state, save_failed, step, main_loop,
}
use session_cli.Community.{Db, to_save, sort_messages, maximum}
use session_cli.Padding.{strip_message_padding}
use session_cli.Sogs
use session_cli.Sogs.{MessageOrDelete, map_data}
use session_cli.SyncState.{CommunityMessageSyncState, get_community_message_sync_state}

-- Content is its bytes; an empty message does not decode.
abbrev decode : List ℕ → Result Text (List ℕ)
decode [] = err (codes "empty")
decode (x ∷ xs) = ok (x ∷ xs)

abbrev room : Text
room = codes "http://a/x"

abbrev post : ℕ → ℕ → Sogs.Message (List ℕ)
post id seq = record {
  id = id;
  sender_id = codes "05";
  posted = 9;
  edited = none;
  seqno = pos seq;
  whisper = false;
  whisper_mods = false;
  whisper_to = none;
  payload = 1 ∷ [];
  signature = none;
  reaction_by_emoji = [];
}

abbrev page : Page
page =
    MessageOrDelete.message (post 4 7)
    ∷ MessageOrDelete.deleted (record { id = 2; seqno = pos 9 })
    ∷ MessageOrDelete.message (post 5 8)
    ∷ []

abbrev deletions : Page
deletions = MessageOrDelete.deleted (record { id = 2; seqno = pos 9 }) ∷ []

abbrev server : Page → Server Text
server p _ = ok p

abbrev empty_db : Db (List ℕ)
empty_db = record { messages = record { rows = []; next_id = 1 }; reactions = []; sync_states = [] }

abbrev fresh : Worker (List ℕ) Text
fresh = record { db = empty_db; sync_state = initial_state; answers = []; reported = [] }

abbrev reached : CommunityMessageSyncState
reached = record initial_state { latest_seq = pos 8 }

main_loop-has_earlier_example :
    (main_loop decode room
      (load_earlier (server []) none ∷ poll (server page) none ∷ load_earlier (server []) none ∷ [])
      fresh).sync_state.has_earlier_messages
    ≡ true
main_loop-has_earlier_example =
    main_loop-has_earlier decode room
      (load_earlier (server []) none ∷ poll (server page) none ∷ load_earlier (server []) none ∷ [])
      fresh refl

poll_fault_example :
    (step decode room (poll (server page) (some (codes "locked"))) fresh ≡ record fresh {
      sync_state = reached;
      reported = save_failed (saving_messages (codes "locked")) ∷ [];
    })
    × AllSeqs (λ s. s ≤ℤ pos 8) (sort_messages decode room page).save_messages
unfolding sort_messages map_data maximum strip_message_padding
poll_fault_example =
    poll_fault decode room (server page) (codes "locked") fresh page (pos 8) refl refl

poll_reaches_example :
    AllSeqs
      (λ s. s ≤ℤ (step decode room (poll (server page) none) fresh).sync_state.latest_seq)
      (to_save {E = Text} decode room (post 4 7) ∷ to_save {E = Text} decode room (post 5 8) ∷ [])
unfolding sort_messages map_data strip_message_padding
poll_reaches_example =
    poll_reaches decode room (server page) none fresh page
      (to_save {E = Text} decode room (post 4 7)) (to_save {E = Text} decode room (post 5 8) ∷ [])
      refl refl

poll-stored_example :
    get_community_message_sync_state room
      (step decode room (poll (server page) none) fresh).db.sync_states
    ≡ some (step decode room (poll (server page) none) fresh).sync_state
unfolding sort_messages map_data strip_message_padding
poll-stored_example = poll-stored decode room (server page) fresh page refl refl
