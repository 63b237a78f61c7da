-- ===== src/Model/Conflict.antt =====
-- internal/model/conflict.go.
use telebook_server.Prelude.{ℕ, String, ◌≡◌, refl, ◌⊎◌, inl, inr}
use telebook_server.Model.Book.{RawMessage, Time}

pub data ConflictStatus : Type 0 where
  open_conflict resolved : ConflictStatus

pub record Conflict (Raw : Type 0) : Type 0 where
  pub id : ℕ
  pub entity_type : String
  pub entity_id : String
  pub local_payload : RawMessage Raw
  pub server_payload : RawMessage Raw
  pub server_revision : ℕ
  pub status : ConflictStatus
  pub created_at : Time

-- `strategy` is the client's text.
pub record ResolveRequest (Raw : Type 0) : Type 0 where
  pub strategy : String
  pub payload : RawMessage Raw

abbrev pub strategy_keep_local : String
strategy_keep_local = "keep_local"

abbrev pub strategy_keep_server : String
strategy_keep_server = "keep_server"

abbrev pub strategy_manual : String
strategy_manual = "manual"

pub ConflictStatus-cases : (st : ConflictStatus) → (st ≡ open_conflict) ⊎ (st ≡ resolved)
ConflictStatus-cases open_conflict = inl refl
ConflictStatus-cases resolved = inr refl
