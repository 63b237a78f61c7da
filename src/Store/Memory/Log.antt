-- ===== src/Store/Memory/Log.antt =====
-- internal/store/memory_sync_store.go: `appendEventLocked`, `appendConflictLocked` and
-- `appendBookConflictLocked`, which the methods share.
use telebook_server.Prelude.{ℕ, suc, String, true, false, [], ◌∷◌, ◌++◌, insert}
use telebook_server.Model.Book.{RawMessage, Time}
use telebook_server.Model.Sync.{Change, ChangeOutcome, Reason}
use telebook_server.Model.Conflict.{open_conflict}
use telebook_server.Store.Memory.{MemorySyncStore, EventStatus}

module _ {Raw : Type 0} where
  -- The event's `Revision` is not set, so it is 0.
  unfoldable pub append_event :
      Change Raw
      → String
      → ℕ
      → EventStatus
      → Time
      → MemorySyncStore Raw
      → ChangeOutcome × MemorySyncStore Raw
  append_event c device_id revision status now s =
      let id = suc s.next_event_id in
      (
        record {
          accepted = true;
          revision = revision;
          event_id = id;
          reason = Reason.no_reason;
          conflict_id = 0;
        },
        record s {
          next_event_id = id;
          change_ids = insert c.change_id id s.change_ids;
          events =
              s.events
              ++ record {
                change_id = c.change_id;
                status = status;
                event = record {
                  id = id;
                  entity_type = c.entity_type;
                  entity_id = c.entity_id;
                  op = c.op;
                  revision = 0;
                  payload = c.payload;
                  device_id = device_id;
                  created_at = now;
                };
              }
                ∷ [];
        },
      )

  -- The two conflict methods differ in where the server's payload is read, an argument here.
  unfoldable pub append_conflict :
      Change Raw
      → String
      → ℕ
      → RawMessage Raw
      → Time
      → MemorySyncStore Raw
      → ChangeOutcome × MemorySyncStore Raw
  unfolding append_event
  append_conflict c device_id current_rev server_payload now s =
      let (event_outcome, s') = append_event c device_id current_rev EventStatus.conflict now s in
      let conflict_id = suc s'.next_conflict_id in
      (
        record {
          accepted = false;
          revision = 0;
          event_id = event_outcome.event_id;
          reason = Reason.conflict;
          conflict_id = conflict_id;
        },
        record s' {
          next_conflict_id = conflict_id;
          conflicts =
              s'.conflicts
              ++ record {
                record_of = record {
                  id = conflict_id;
                  entity_type = c.entity_type;
                  entity_id = c.entity_id;
                  local_payload = c.payload;
                  server_payload = server_payload;
                  server_revision = current_rev;
                  status = open_conflict;
                  created_at = now;
                };
                base_revision = c.base_revision;
              }
                ∷ [];
        },
      )
