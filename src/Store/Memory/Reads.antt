-- ===== src/Store/Memory/Reads.antt =====
-- internal/store/memory_sync_store.go: the methods of `EventStore`, `CursorStore` and
-- `HistoryStore`. A caller passes no negative cursor or limit.
use mathlib.Core.List.{reverse}
use telebook_server.Prelude.{
  ℕ, suc, String, Bool, true, false, not, none, some, List, [], ◌∷◌, ◌++◌, lookup, insert, take,
  length, leb, eqb, if◌then◌else◌,
}
use telebook_server.Model.Errors.{Error, Result, ok, err}
use telebook_server.Model.Book.{RawMessage, Time, BookHistory}
use telebook_server.Model.Sync.{SyncEvent}
use telebook_server.Store.Memory.{MemorySyncStore, MemoryEvent, EventStatus}

-- The test of the status: a conflict is not sent.
unfoldable pub deliverable : EventStatus → Bool
deliverable EventStatus.done = true
deliverable EventStatus.conflict = false
deliverable EventStatus.failed = true

module _ {Raw : Type 0} where
  -- The loop over the events, with the page so far.
  unfoldable pub collect_page :
      ℕ → ℕ → List (SyncEvent Raw) → List (MemoryEvent Raw) → List (SyncEvent Raw) × Bool
  unfolding deliverable
  collect_page cursor limit result [] = (result, false)
  collect_page cursor limit result (e ∷ es) =
      let skipped = collect_page cursor limit result es in
      let taken = collect_page cursor limit (result ++ e.event ∷ []) es in
      if leb e.event.id cursor
      then skipped
      else if not (deliverable e.status)
      then skipped
      else if leb limit (length result)
      then (result, true)
      else taken

  unfoldable pub list_after_cursor : ℕ → ℕ → MemorySyncStore Raw → List (SyncEvent Raw) × Bool
  unfolding collect_page
  list_after_cursor cursor limit s = collect_page cursor limit [] s.events

  -- `CountByStatus` counts nothing: pending, conflict and failed are 0.
  unfoldable pub count_by_status : MemorySyncStore Raw → ℕ × ℕ × ℕ
  count_by_status s = (0, 0, 0)

  unfoldable pub update_cursor : String → ℕ → MemorySyncStore Raw → MemorySyncStore Raw
  update_cursor device_id last_event_id s = record s {
    cursors = insert device_id last_event_id s.cursors;
  }

  -- A device without a cursor reads the zero value.
  unfoldable pub get_cursor : String → MemorySyncStore Raw → ℕ
  get_cursor device_id s = elim (lookup device_id s.cursors) [ none ↦ 0 | some n ↦ n ]

  unfoldable pub insert_snapshot :
      String → String → RawMessage Raw → Time → MemorySyncStore Raw → ℕ × MemorySyncStore Raw
  insert_snapshot op_type tag snapshot now s =
      let id = suc s.next_history_id in
      (
        id,
        record s {
          next_history_id = id;
          history =
              s.history
              ++ record {
                id = id;
                op_type = op_type;
                tag = tag;
                payload = snapshot;
                created_at = now;
              }
                ∷ [];
        },
      )

  -- The newest first; a limit of 0 is 500.
  unfoldable pub list_history : ℕ → MemorySyncStore Raw → List (BookHistory Raw)
  list_history limit s = take (if eqb limit 0 then 500 else limit) (reverse s.history)

  unfoldable pub find_history : ℕ → List (BookHistory Raw) → Result (BookHistory Raw)
  find_history id [] = err Error.history_not_found
  find_history id (h ∷ hs) = if eqb h.id id then ok h else find_history id hs

  unfoldable pub get_history : ℕ → MemorySyncStore Raw → Result (BookHistory Raw)
  unfolding find_history
  get_history id s = find_history id s.history
