-- ===== src/Community/Progress.antt =====
-- How the sync state moves: what a saved page does to it, and what holds over the main loop.
use session_cli.Base.{
  ℕ, ◌≡◌, Bool, true, false, List, [], ◌∷◌, Option, Result, ok, arith, Result-cases, inl, inr,
}
use session_cli.Base.Text.{Text}
use session_cli.Community.Save.{save_sorted, save_messages_and_sync_state}
use session_cli.Community.Worker.{
  Event, load_earlier, poll, Worker, Server, since, before, load_limit, step, main_loop,
}
use session_cli.Community.{Db, Sorted, sort_messages}
use session_cli.Sogs.{MessageOrDelete}
use session_cli.SyncState.{CommunityMessageSyncState}

module _ {ℓ κ} {C : Type ℓ} {F : Type κ} where
  save_sorted-has_earlier :
      (id : Text) (fault : Option F) (sorted : Sorted C) (e l : Bool) (db : Db C)
      (s : CommunityMessageSyncState)
      → s.has_earlier_messages ≡ true
      → (save_sorted id fault sorted e l db s).sync_state.has_earlier_messages ≡ true
  unfolding save_sorted
  save_sorted-has_earlier id fault sorted e l db s h = ground arith

  save_sorted_nothing :
      (id : Text) (fault : Option F) (sorted : Sorted C) (e l : Bool) (db : Db C)
      (s : CommunityMessageSyncState)
      → sorted.save_messages ≡ []
      → (save_sorted id fault sorted e l db s).sync_state ≡ s
  unfolding save_sorted
  save_sorted_nothing id fault sorted e l db s h = ground arith

module _ {ℓ κ μ} {C : Type ℓ} {E : Type κ} {F : Type μ} (decode : List ℕ → Result E C)
    (id : Text) where
  step-has_earlier :
      (e : Event F) (w : Worker C F)
      → w.sync_state.has_earlier_messages ≡ true
      → (step decode id e w).sync_state.has_earlier_messages ≡ true
  unfolding step save_messages_and_sync_state
  step-has_earlier (load_earlier server fault) w h =
      elim (Result-cases (server (before w.sync_state.earliest_message_id load_limit))) [
        | inl (page, e) ↦ ground (
          arith,
          save_sorted-has_earlier id fault (sort_messages decode id page) true false w.db
              w.sync_state,
        )
        | inr (x, e) ↦ ground arith
      ]
  step-has_earlier (poll server fault) w h =
      elim (Result-cases (server (since w.sync_state.latest_seq load_limit))) [
        | inl (page, e) ↦ ground (
          arith,
          save_sorted-has_earlier id fault (sort_messages decode id page) false true w.db
              w.sync_state,
        )
        | inr (x, e) ↦ ground arith
      ]

  -- From a worker that takes earlier messages to exist, as every worker starts that first reads its
  -- community, no events ever make it take the contrary: the test of the first arm never passes.
  pub main_loop-has_earlier :
      (events : List (Event F)) (w : Worker C F)
      → w.sync_state.has_earlier_messages ≡ true
      → (main_loop decode id events w).sync_state.has_earlier_messages ≡ true
  unfolding main_loop
  main_loop-has_earlier [] w h = h
  main_loop-has_earlier (e ∷ es) w h =
      main_loop-has_earlier es (step decode id e w) (step-has_earlier e w h)

  -- A poll that is answered by a page without a decodable message leaves the sync state as it is,
  -- whatever is deleted by the page: the next poll makes the same request.
  pub poll_without_messages :
      (server : Server F) (fault : Option F) (w : Worker C F)
      (page : List (MessageOrDelete (List ℕ)))
      → server (since w.sync_state.latest_seq load_limit) ≡ ok page
      → (sort_messages decode id page).save_messages ≡ []
      → (step decode id (poll server fault) w).sync_state ≡ w.sync_state
  unfolding step save_messages_and_sync_state
  poll_without_messages server fault w page e h = ground (
    arith,
    save_sorted_nothing id fault (sort_messages decode id page) false true w.db w.sync_state,
  )
