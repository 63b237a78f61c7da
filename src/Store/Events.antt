-- ===== src/Store/Events.antt =====
-- internal/store/event_store.go: `PGEventStore` and `PGCursorStore` over the tables `sync_events`
-- and `sync_cursors` of internal/store/db.go. The rows of the events stand in the order of their
-- ids, in which the sequence of the table gives them; `change_id` and `status` are the columns
-- that an event of an answer does not have.
pub mod Agreement
use telebook_server.Prelude.{
  ℕ, suc, String, Bool, true, false, not, ◌&&◌, none, some, List, [], ◌∷◌, map, keep, take, GoMap,
  lookup, insert, length, ltb, if◌then◌else◌,
}
use telebook_server.Model.Errors.{Result, ok}
use telebook_server.Model.Sync.{SyncEvent}
use telebook_server.Store.Memory.{MemoryEvent, EventStatus}

pub record EventTables (Raw : Type 0) : Type 0 where
  pub sync_events : List (MemoryEvent Raw)
  pub sync_cursors : GoMap ℕ

-- `status IN ('done', 'failed')`.
unfoldable pub done_or_failed : EventStatus → Bool
done_or_failed EventStatus.done = true
done_or_failed EventStatus.failed = true
done_or_failed EventStatus.conflict = false

abbrev pub is_conflict : EventStatus → Bool
is_conflict EventStatus.conflict = true
is_conflict _ = false

abbrev pub is_failed : EventStatus → Bool
is_failed EventStatus.failed = true
is_failed _ = false

module _ {Raw : Type 0} where
  -- The rows of the query before its LIMIT.
  unfoldable pub selected : ℕ → List (MemoryEvent Raw) → List (SyncEvent Raw)
  selected cursor rows =
      map (λ e. e.event) (keep (λ e. ltb cursor e.event.id && done_or_failed e.status) rows)

  -- One event more than the limit is fetched, to see whether there is more.
  unfoldable pub cut_page : ℕ → List (SyncEvent Raw) → List (SyncEvent Raw) × Bool
  cut_page limit events =
      let has_more = ltb limit (length events) in
      (if has_more then take limit events else events, has_more)

  unfoldable pub list_after_cursor : ℕ → ℕ → EventTables Raw → List (SyncEvent Raw) × Bool
  list_after_cursor cursor limit t =
      cut_page limit (take (suc limit) (selected cursor t.sync_events))

  -- No row has the status `pending`.
  unfoldable pub count_by_status : EventTables Raw → ℕ × ℕ × ℕ
  count_by_status t = (
    0,
    length (keep (λ e. is_conflict e.status) t.sync_events),
    length (keep (λ e. is_failed e.status) t.sync_events),
  )

  unfoldable pub update_cursor : String → ℕ → EventTables Raw → EventTables Raw
  update_cursor device_id last t = record t { sync_cursors = insert device_id last t.sync_cursors }

  unfoldable pub get_cursor : String → EventTables Raw → ℕ
  get_cursor device_id t = elim (lookup device_id t.sync_cursors) [ none ↦ 0 | some c ↦ c ]
