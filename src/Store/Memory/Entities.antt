-- ===== src/Store/Memory/Entities.antt =====
-- internal/store/memory_sync_store.go: `ApplyChange` and `ForceUpsert`.
use Prim.Native.String.{◌++◌ as ◌<>◌}
use telebook_server.Prelude.{
  ◌+◌, String, true, false, not, Option, none, some, lookup, insert, is_some, ◌==◌, if◌then◌else◌,
}
use telebook_server.Prelude.Int.{pos, eq_pos}
use telebook_server.Model.Book.{RawMessage, Time}
use telebook_server.Model.Sync.{Change, ChangeOutcome, zero_outcome, Reason, op_delete, op_upsert}
use telebook_server.Store.Memory.{MemorySyncStore, MemoryEntity, EventStatus}
use telebook_server.Store.Memory.Log.{append_event, append_conflict}

-- The key of an entity in the map.
unfoldable pub entity_key : String → String → String
entity_key entity_type entity_id = entity_type <> ("|" <> entity_id)

module _ {Raw : Type 0} where
  -- The row that a change of the current revision leaves.
  unfoldable pub changed_row : Change Raw → MemoryEntity Raw → MemoryEntity Raw
  changed_row c row =
      if c.op == op_delete
      then record row { deleted = true; revision = row.revision + 1 }
      else record { deleted = false; payload = c.payload; revision = row.revision + 1 }

  -- The switch on the row that was found.
  unfoldable pub apply_to_entity :
      Option (MemoryEntity Raw)
      → Change Raw
      → String
      → Time
      → MemorySyncStore Raw
      → ChangeOutcome × MemorySyncStore Raw
  apply_to_entity none c device_id now s =
      if c.op == op_delete
      then (record zero_outcome { accepted = true }, s)
      else if not (eq_pos c.base_revision 0)
      then (record zero_outcome { reason = Reason.conflict }, s)
      else append_event c device_id 1 EventStatus.done now (record s {
        entities =
            insert (entity_key c.entity_type c.entity_id)
              (record { revision = 1; deleted = false; payload = c.payload }) s.entities;
      })
  apply_to_entity (some ent) c device_id now s =
      if not (eq_pos c.base_revision ent.revision)
      then append_conflict c device_id ent.revision ent.payload now s
      else append_event c device_id (ent.revision + 1) EventStatus.done now (record s {
        entities = insert (entity_key c.entity_type c.entity_id) (changed_row c ent) s.entities;
      })

  unfoldable pub apply_change :
      Change Raw → String → Time → MemorySyncStore Raw → ChangeOutcome × MemorySyncStore Raw
  apply_change c device_id now s =
      if is_some (lookup c.change_id s.change_ids)
      then (record zero_outcome { accepted = true; reason = Reason.duplicate }, s)
      else apply_to_entity (lookup (entity_key c.entity_type c.entity_id) s.entities) c device_id
          now s

  -- The row after an authoritative write.
  unfoldable pub forced_row : RawMessage Raw → Option (MemoryEntity Raw) → MemoryEntity Raw
  forced_row payload none = record { revision = 1; deleted = false; payload = payload }
  forced_row payload (some ent) = record {
    revision = ent.revision + 1;
    deleted = false;
    payload = payload;
  }

  unfoldable pub force_upsert :
      String
      → String
      → RawMessage Raw
      → String
      → Time
      → MemorySyncStore Raw
      → ChangeOutcome × MemorySyncStore Raw
  force_upsert entity_type entity_id payload device_id now s =
      let key = entity_key entity_type entity_id in
      let row = forced_row payload (lookup key s.entities) in
      append_event
        (record {
          change_id = "";
          entity_type = entity_type;
          entity_id = entity_id;
          op = op_upsert;
          base_revision = pos 0;
          payload = payload;
        })
        device_id row.revision EventStatus.done now
        (record s { entities = insert key row s.entities })
