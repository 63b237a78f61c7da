-- ===== src/Store/Memory.antt =====
-- internal/store/memory_sync_store.go: the state. Its children hold the methods. A method runs
-- under the mutex, so a call is one step; it takes the reading of the clock as an argument.
pub mod Log
pub mod Entities
pub mod Books
pub mod Restore
pub mod Reads
pub mod Conflicts
pub mod Invariant
pub mod Preserves
pub mod Bookkeeping
pub mod Replay
pub mod Convergence
pub mod Steps
pub mod Paging
pub mod Cursors
pub mod Locking
pub mod Growth
pub mod Closing
pub mod Restoration
use telebook_server.Prelude.{ℕ, String, Bool, List, [], GoMap}
use telebook_server.Prelude.Int.{ℤ}
use telebook_server.Model.Book.{RawMessage, BookHistory}
use telebook_server.Model.Sync.{SyncEvent}
use telebook_server.Model.Conflict.{Conflict}

pub record MemoryEntity (Raw : Type 0) : Type 0 where
  pub revision : ℕ
  pub deleted : Bool
  pub payload : RawMessage Raw

-- `memoryBook` has the fields of `memoryEntity`.
abbrev pub MemoryBook : Type 0 → Type 0
MemoryBook = MemoryEntity

pub data EventStatus : Type 0 where
  done conflict failed : EventStatus

-- The embedded `SyncEvent` is a field.
pub record MemoryEvent (Raw : Type 0) : Type 0 where
  pub change_id : String
  pub status : EventStatus
  pub event : SyncEvent Raw

pub record MemoryConflict (Raw : Type 0) : Type 0 where
  pub record_of : Conflict Raw
  pub base_revision : ℤ

pub record MemorySyncStore (Raw : Type 0) : Type 0 where
  pub entities : GoMap (MemoryEntity Raw)
  pub books : GoMap (MemoryBook Raw)
  pub history : List (BookHistory Raw)
  pub next_history_id : ℕ
  pub events : List (MemoryEvent Raw)
  pub change_ids : GoMap ℕ
  pub next_event_id : ℕ
  pub cursors : GoMap ℕ
  pub conflicts : List (MemoryConflict Raw)
  pub next_conflict_id : ℕ

unfoldable pub new_memory_sync_store : {Raw : Type 0} → MemorySyncStore Raw
new_memory_sync_store = record {
  entities = [];
  books = [];
  history = [];
  next_history_id = 0;
  events = [];
  change_ids = [];
  next_event_id = 0;
  cursors = [];
  conflicts = [];
  next_conflict_id = 0;
}
