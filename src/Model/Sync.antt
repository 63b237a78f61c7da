-- ===== src/Model/Sync.antt =====
-- internal/model/sync.go, the synchronisation part, and `ChangeOutcome` of
-- internal/store/entity_store.go.
use telebook_server.Prelude.{ℕ, String, Bool, false, List}
use telebook_server.Prelude.Int.{ℤ}
use telebook_server.Model.Book.{RawMessage, Time}

-- `entity_type` and `op` are the client's texts; the revision that the client saw is not checked.
pub record Change (Raw : Type 0) : Type 0 where
  pub change_id : String
  pub entity_type : String
  pub entity_id : String
  pub op : String
  pub base_revision : ℤ
  pub payload : RawMessage Raw

abbrev pub op_upsert : String
op_upsert = "upsert"

abbrev pub op_delete : String
op_delete = "delete"

abbrev pub op_progress : String
op_progress = "progress"

abbrev pub op_restore : String
op_restore = "restore"

abbrev pub tag_manual : String
tag_manual = "manual"

abbrev pub entity_book : String
entity_book = "book"

pub data Reason : Type 0 where
  no_reason conflict duplicate files_incomplete : Reason

pub record ChangeOutcome : Type 0 where
  pub accepted : Bool
  pub revision : ℕ
  pub event_id : ℕ
  pub reason : Reason
  pub conflict_id : ℕ

-- The zero value of the struct.
abbrev pub zero_outcome : ChangeOutcome
zero_outcome = record {
  accepted = false;
  revision = 0;
  event_id = 0;
  reason = no_reason;
  conflict_id = 0;
}

pub record ChangeResult : Type 0 where
  pub entity_type : String
  pub entity_id : String
  pub accepted : Bool
  pub revision : ℕ
  pub event_id : ℕ
  pub reason : Reason
  pub conflict_id : ℕ

pub record SyncEvent (Raw : Type 0) : Type 0 where
  pub id : ℕ
  pub entity_type : String
  pub entity_id : String
  pub op : String
  pub revision : ℕ
  pub payload : RawMessage Raw
  pub device_id : String
  pub created_at : Time

pub record PullResult (Raw : Type 0) : Type 0 where
  pub cursor : ℕ
  pub has_more : Bool
  pub events : List (SyncEvent Raw)

-- `last_synced_at` is never set.
pub record SyncStatus : Type 0 where
  pub cursor : ℕ
  pub pending_count : ℕ
  pub conflict_count : ℕ
  pub failed_count : ℕ
