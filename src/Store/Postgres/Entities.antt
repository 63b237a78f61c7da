-- ===== src/Store/Postgres/Entities.antt =====
-- internal/store/entity_store.go: `ApplyChange` and `ForceUpsert` of `PGEntityStore`.
use telebook_server.Prelude.{
  ℕ, suc, ◌+◌, String, Bool, true, false, not, ◌&&◌, Option, none, some, List, [], ◌∷◌, ◌==◌,
  if◌then◌else◌,
}
use telebook_server.Prelude.Int.{pos, eq_pos}
use telebook_server.Model.Action.{Action, pure, total, ◌>>=◌}
use telebook_server.Model.Book.{RawMessage, Time, Codec}
use telebook_server.Model.Sync.{Change, ChangeOutcome, op_delete, op_upsert}
use telebook_server.Store.Postgres.{SyncTables, EntityRow, transaction}
use telebook_server.Store.Postgres.Rows.{
  change_exists, log_accepted, log_refused, duplicate_outcome, accepted_outcome, refused_outcome,
  normalize_payload,
}

module _ {Raw : Type 0} where
  -- The key of the table.
  unfoldable pub same_entity : String → String → EntityRow Raw → Bool
  same_entity t i row = row.entity_type == t && row.entity_id == i

  unfoldable pub find_entity : String → String → List (EntityRow Raw) → Option (EntityRow Raw)
  find_entity t i [] = none
  find_entity t i (row ∷ rows) = if same_entity t i row then some row else find_entity t i rows

  -- An INSERT of the row, or an UPDATE of the one with its key.
  unfoldable pub put_entity : EntityRow Raw → List (EntityRow Raw) → List (EntityRow Raw)
  put_entity new [] = new ∷ []
  put_entity new (row ∷ rows) =
      if same_entity new.entity_type new.entity_id row
      then new ∷ rows
      else row ∷ put_entity new rows

  abbrev pub save_entity : EntityRow Raw → Action (SyncTables Raw) ℕ
  save_entity row = total λ t. (row.revision, record t { entities = put_entity row t.entities })

  -- The row that is written over the one that was found.
  unfoldable pub entity_row : String → String → Option Raw → Option (EntityRow Raw) → EntityRow Raw
  entity_row t i payload none = record {
    entity_type = t;
    entity_id = i;
    revision = 1;
    deleted = false;
    payload = payload;
  }
  entity_row t i payload (some row) = record row {
    revision = row.revision + 1;
    deleted = false;
    payload = payload;
  }

module _ {Raw : Type 0} (codec : Codec Raw) where
  -- The tombstone keeps the payload.
  unfoldable pub changed_entity : Change Raw → EntityRow Raw → EntityRow Raw
  unfolding entity_row
  changed_entity c row =
      if c.op == op_delete
      then record row { revision = row.revision + 1; deleted = true }
      else entity_row c.entity_type c.entity_id (normalize_payload codec c.payload) (some row)

  -- The switch on the row that was found.
  unfoldable pub change_entity :
      Option (EntityRow Raw) → Change Raw → String → Time → Action (SyncTables Raw) ChangeOutcome
  unfolding changed_entity
  change_entity none c device_id now =
      if c.op == op_delete
      then pure accepted_outcome
      else if not (eq_pos c.base_revision 0)
      then pure (refused_outcome 0)
      else do
        revision ←
            save_entity
              (entity_row c.entity_type c.entity_id (normalize_payload codec c.payload) none)
        log_accepted c revision device_id now
  change_entity (some row) c device_id now =
      if not (eq_pos c.base_revision row.revision)
      then log_refused c row.revision device_id now
      else do revision ← save_entity (changed_entity c row); log_accepted c revision device_id now

  unfoldable pub entity_body : Change Raw → String → Time → Action (SyncTables Raw) ChangeOutcome
  unfolding change_entity
  entity_body c device_id now t =
      if change_exists c.change_id t.event_tables.sync_events
      then pure duplicate_outcome t
      else change_entity (find_entity c.entity_type c.entity_id t.entities) c device_id now t

  unfoldable pub apply_change : Change Raw → String → Time → Action (SyncTables Raw) ChangeOutcome
  unfolding entity_body
  apply_change c device_id now = transaction (entity_body c device_id now)

  unfoldable pub force_entity :
      (ℕ → String)
      → String
      → String
      → RawMessage Raw
      → String
      → Time
      → Action (SyncTables Raw) ChangeOutcome
  force_entity fresh entity_type entity_id payload device_id now t =
      (do
        revision ← save_entity (
            entity_row entity_type entity_id (normalize_payload codec payload)
              (find_entity entity_type entity_id t.entities))
        log_accepted
            (record {
              change_id = fresh (suc t.event_seq);
              entity_type = entity_type;
              entity_id = entity_id;
              op = op_upsert;
              base_revision = pos 0;
              payload = payload;
            })
            revision device_id now)
        t

  unfoldable pub force_upsert :
      (ℕ → String)
      → String
      → String
      → RawMessage Raw
      → String
      → Time
      → Action (SyncTables Raw) ChangeOutcome
  unfolding force_entity
  force_upsert fresh entity_type entity_id payload device_id now =
      transaction (force_entity fresh entity_type entity_id payload device_id now)
