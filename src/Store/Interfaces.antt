-- ===== src/Store/Interfaces.antt =====
-- The interfaces `EntityStore`, `BookStore`, `HistoryStore`, `EventStore`, `CursorStore`,
-- `ConflictStore` and `LibraryVersionStore` of internal/store, over a state `S` that the
-- implementations share, and the in-memory implementation of the first six.
use telebook_server.Prelude.{ℕ, String, Bool, List}
use telebook_server.Model.Errors.{ok}
use telebook_server.Model.Action.{Action, total, gets}
use telebook_server.Model.Book.{RawMessage, Time, Codec, BookHistory, BookRestoreResult}
use telebook_server.Model.Sync.{Change, ChangeOutcome, SyncEvent}
use telebook_server.Model.Conflict.{Conflict}
use telebook_server.Store.Memory.{MemorySyncStore}
use telebook_server.Store.Memory.Entities
use telebook_server.Store.Memory.Books
use telebook_server.Store.Memory.Restore
use telebook_server.Store.Memory.Reads
use telebook_server.Store.Memory.Conflicts

pub record SyncStores (Raw S : Type 0) : Type 0 where
  pub apply_change : Change Raw → String → Action S ChangeOutcome
  pub force_upsert : String → String → RawMessage Raw → String → Action S ChangeOutcome
  pub apply_book_change : Change Raw → String → String → Action S ChangeOutcome
  pub force_upsert_book : String → RawMessage Raw → String → Action S ChangeOutcome
  pub restore_library : RawMessage Raw → String → Action S BookRestoreResult
  pub snapshot_library : Action S (RawMessage Raw)
  pub insert_snapshot : String → String → RawMessage Raw → Action S ℕ
  pub list_history : ℕ → Action S (List (BookHistory Raw))
  pub get_history : ℕ → Action S (BookHistory Raw)
  pub list_after_cursor : ℕ → ℕ → Action S (List (SyncEvent Raw) × Bool)
  pub count_by_status : Action S (ℕ × ℕ × ℕ)
  pub update_cursor : String → ℕ → Action S (Unit {0})
  pub get_cursor : String → Action S ℕ
  pub list_open : Action S (List (Conflict Raw))
  pub get_conflict : ℕ → Action S (Conflict Raw)
  pub mark_resolved : ℕ → String → Action S (Unit {0})

pub record LibraryVersionStore (S : Type 0) : Type 0 where
  pub get_book_version : Action S String
  pub set_book_version : String → Action S (Unit {0})

-- The memory store at a reading of the clock and an order in which the maps are walked.
abbrev pub memory_stores :
    {Raw : Type 0}
    → Codec Raw
    → (List String → List String)
    → Time
    → SyncStores Raw (MemorySyncStore Raw)
memory_stores codec order now = record {
  apply_change = λ c device_id. total (Entities.apply_change c device_id now);
  force_upsert = λ t i payload device_id. total (Entities.force_upsert t i payload device_id now);
  apply_book_change = λ c source device_id. total (Books.apply_book_change c source device_id now);
  force_upsert_book =
      λ i payload device_id. total (Books.force_upsert_book i payload device_id now);
  restore_library =
      λ snapshot device_id s. Restore.restore_library codec order snapshot device_id now s;
  snapshot_library = gets (Restore.snapshot_library codec order);
  insert_snapshot = λ op_type tag snapshot. total (Reads.insert_snapshot op_type tag snapshot now);
  list_history = λ limit. gets (Reads.list_history limit);
  get_history = λ id s. (Reads.get_history id s, s);
  list_after_cursor = λ cursor limit. gets (Reads.list_after_cursor cursor limit);
  count_by_status = gets Reads.count_by_status;
  update_cursor = λ device_id last s. (ok tt, Reads.update_cursor device_id last s);
  get_cursor = λ device_id. gets (Reads.get_cursor device_id);
  list_open = gets Conflicts.list_open;
  get_conflict = λ id s. (Conflicts.get_conflict id s, s);
  mark_resolved = λ id device_id s. Conflicts.mark_resolved id device_id s;
}
