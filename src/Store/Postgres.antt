-- ===== src/Store/Postgres.antt =====
-- The tables of internal/store/db.go that hold entities, books, archives and conflicts, and the
-- transactions of pgx on them. The rows of a table with a sequence stand in the order of their
-- ids. A transaction is one step: it locks the row that it decides on. A statement fails where it
-- breaks a constraint of a column; a JSONB column gives back the document that was written.
pub mod Rows
pub mod Entities
pub mod Books
pub mod Restore
pub mod Conflicts
pub mod History
pub mod Stores
pub mod Replay
pub mod Convergence
pub mod Steps
pub mod Agreement
pub mod Progress
pub mod Soundness
pub mod Preserves
pub mod Operations
pub mod Histories
pub mod Listing
use telebook_server.Prelude.{ℕ, String, Bool, Option, none, List, [], GoMap}
use telebook_server.Prelude.Int.{ℤ}
use telebook_server.Model.Errors.{Result, ok, err}
use telebook_server.Model.Action.{Action}
use telebook_server.Model.Book.{BookHistory, Time}
use telebook_server.Model.Conflict.{ConflictStatus}
use telebook_server.Store.Events.{EventTables}

-- A row of `entities`, whose key is the pair of its first two columns; NULL is none.
pub record EntityRow (Raw : Type 0) : Type 0 where
  pub entity_type : String
  pub entity_id : String
  pub revision : ℕ
  pub deleted : Bool
  pub payload : Option Raw

-- The columns of `current_book` that a payload fills.
pub record BookData (Raw : Type 0) : Type 0 where
  pub name : String
  pub current_page : ℤ
  pub cover_hash : Option String
  pub files : Raw

pub record BookRow (Raw : Type 0) : Type 0 where
  pub data_of : BookData Raw
  pub revision : ℕ
  pub progress_revision : ℕ
  pub deleted : Bool

pub record ConflictRow : Type 0 where
  pub id : ℕ
  pub event_id : ℕ
  pub entity_type : String
  pub entity_id : String
  pub base_revision : ℤ
  pub current_revision : ℕ
  pub status : ConflictStatus
  pub resolved_by : Option String
  pub created_at : Time

-- The tables, and the last value that the sequence of each BIGSERIAL column gave.
pub record SyncTables (Raw : Type 0) : Type 0 where
  pub entities : List (EntityRow Raw)
  pub current_book : GoMap (BookRow Raw)
  pub event_tables : EventTables Raw
  pub event_seq : ℕ
  pub conflicts : List ConflictRow
  pub conflict_seq : ℕ
  pub book_history : List (BookHistory Raw)
  pub history_seq : ℕ

module _ {Raw : Type 0} where
  unfoldable pub empty_tables : SyncTables Raw
  empty_tables = record {
    entities = [];
    current_book = [];
    event_tables = record { sync_events = []; sync_cursors = [] };
    event_seq = 0;
    conflicts = [];
    conflict_seq = 0;
    book_history = [];
    history_seq = 0;
  }

  -- The tables `s`, with the sequences where `t` has them: a rollback gives no value back.
  unfoldable pub rolled_back : SyncTables Raw → SyncTables Raw → SyncTables Raw
  rolled_back s t = record s {
    event_seq = t.event_seq;
    conflict_seq = t.conflict_seq;
    history_seq = t.history_seq;
  }

  unfoldable pub settle :
      {A : Type 0} → SyncTables Raw → Result A × SyncTables Raw → Result A × SyncTables Raw
  unfolding rolled_back
  settle s (ok a, t) = (ok a, t)
  settle s (err e, t) = (err e, rolled_back s t)

  -- `Begin`, the body on the tables, and `Commit`; after an error, the deferred `Rollback`.
  unfoldable pub transaction : {A : Type 0} → Action (SyncTables Raw) A → Action (SyncTables Raw) A
  unfolding settle
  transaction body s = settle s (body s)
