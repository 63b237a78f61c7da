-- ===== src/Service/Sync/Requests.antt =====
-- The synchronisation service under a sequence of requests of any devices, over the memory store
-- that starts empty.
use telebook_server.Prelude.{ℕ, String, ◌≡◌, List, [], ◌∷◌, none, lookup}
use telebook_server.Model.Book.{RawMessage}
use telebook_server.Model.Sync.{Change}
use telebook_server.Model.Conflict.{ResolveRequest}
use telebook_server.Store.Memory.{MemorySyncStore, new_memory_sync_store}
use telebook_server.Store.Memory.Invariant.{WellFormed}
use telebook_server.Store.Memory.Replay.{replay, delivered, live_payload}
use telebook_server.Store.Memory.Steps.{
  Reach, here, Reach-trans, reachable-WellFormed, reachable-Converged,
}
use telebook_server.Store.Memory.Growth.{Grows, Reach-Grows}
use telebook_server.Service.Sync.{push, pull, resolve_conflict, restore_book, record_history}
use telebook_server.Service.Sync.Histories.{
  Env, memory_service, push-IsHistory, pull-IsHistory, resolve_conflict-IsHistory,
  restore_book-IsHistory, record_history-IsHistory,
}

-- The requests that change the state, with the device and what the handler took from the request.
pub data Request (Raw : Type 0) : Type 0 where
  pushes : String → String → List (Change Raw) → Request Raw
  pulls : String → ℕ → ℕ → Request Raw
  resolves : String → ℕ → ResolveRequest Raw → Request Raw
  restores : String → ℕ → Request Raw
  records : String → String → RawMessage Raw → Request Raw

module _ {Raw : Type 0} where
  -- The state after a request, whether it succeeds or fails.
  unfoldable pub handle : Env Raw → Request Raw → MemorySyncStore Raw → MemorySyncStore Raw
  handle env (pushes device_id source cs) s = (push (memory_service env) device_id source cs s).1
  handle env (pulls device_id cursor limit) s =
      (pull (memory_service env) device_id cursor limit s).1
  handle env (resolves device_id id req) s =
      (resolve_conflict (memory_service env) device_id id req s).1
  handle env (restores device_id id) s = (restore_book (memory_service env) device_id id s).1
  handle env (records op_type tag snapshot) s =
      (record_history (memory_service env) op_type tag snapshot s).1

  unfoldable pub serve : List (Env Raw × Request Raw) → MemorySyncStore Raw → MemorySyncStore Raw
  serve [] s = s
  serve ((env, r) ∷ rs) s = serve rs (handle env r s)

  handle-Reach :
      (env : Env Raw) (r : Request Raw) (s : MemorySyncStore Raw) → Reach s (handle env r s)
  unfolding handle
  handle-Reach env (pushes device_id source cs) s = (push-IsHistory env device_id source cs).at s
  handle-Reach env (pulls device_id cursor limit) s =
      (pull-IsHistory env device_id cursor limit).at s
  handle-Reach env (resolves device_id id req) s =
      (resolve_conflict-IsHistory env device_id id req).at s
  handle-Reach env (restores device_id id) s = (restore_book-IsHistory env device_id id).at s
  handle-Reach env (records op_type tag snapshot) s =
      (record_history-IsHistory env op_type tag snapshot).at s

  pub serve-Reach :
      (rs : List (Env Raw × Request Raw)) (s : MemorySyncStore Raw) → Reach s (serve rs s)
  unfolding serve
  serve-Reach [] s = here
  serve-Reach ((env, r) ∷ rs) s =
      Reach-trans (handle-Reach env r s) (serve-Reach rs (handle env r s))

  -- Whatever requests the service has handled from the empty store, in whatever order and with
  -- whatever outcome, events, conflicts and history entries are numbered 1, 2, … without a gap up
  -- to the store's counters, the change id of every event is known to the duplicate test, and no
  -- entity and no book has revision 0, and no book has two rows.
  pub serve-WellFormed :
      (rs : List (Env Raw × Request Raw)) → WellFormed (serve rs new_memory_sync_store)
  serve-WellFormed rs = reachable-WellFormed (serve-Reach rs new_memory_sync_store)

  -- Whatever requests the service has handled from the empty store, a client that applies, from
  -- nothing, all the events with status done or failed in their order has, for every id, the
  -- payload of the server's book of that id, and no book where the server has none or a deleted
  -- one.
  pub serve-converged :
      (rs : List (Env Raw × Request Raw)) (id : String)
      → replay id none (delivered (serve rs new_memory_sync_store).events)
        ≡ live_payload (lookup id (serve rs new_memory_sync_store).books)
  serve-converged rs id = (reachable-Converged (serve-Reach rs new_memory_sync_store)).at_book id

  -- Requests never take back an event of the log, which is only appended to, and never lower the
  -- revision of a book or of another entity; a row of a revision above 0 stays there, deleted or
  -- not.
  pub serve-Grows :
      (rs : List (Env Raw × Request Raw)) (s : MemorySyncStore Raw) → Grows s (serve rs s)
  serve-Grows rs s = Reach-Grows (serve-Reach rs s)
