-- ===== src/Store/Memory/Books.antt =====
-- internal/store/memory_sync_store.go: `ApplyBookChange` and `ForceUpsertBook`.
use Prim.Native.String.{◌++◌ as ◌<>◌}
use telebook_server.Prelude.{
  ◌+◌, String, true, false, not, Option, none, some, lookup, insert, is_some, ◌==◌, if◌then◌else◌,
}
use telebook_server.Prelude.Int.{pos, eq_pos}
use telebook_server.Model.Book.{RawMessage, Time}
use telebook_server.Model.Sync.{
  Change, ChangeOutcome, zero_outcome, Reason, op_delete, op_upsert, entity_book,
}
use telebook_server.Store.Memory.{MemorySyncStore, MemoryBook, EventStatus}
use telebook_server.Store.Memory.Log.{append_event, append_conflict}

module _ {Raw : Type 0} where
  -- The row that a change of the current revision leaves.
  unfoldable pub changed_book : Change Raw → MemoryBook Raw → MemoryBook Raw
  changed_book c book =
      if c.op == op_delete
      then record book { deleted = true; revision = book.revision + 1 }
      else record { deleted = false; payload = c.payload; revision = book.revision + 1 }

  -- The switch on the book that was found.
  unfoldable pub apply_to_book :
      Option (MemoryBook Raw)
      → Change Raw
      → String
      → Time
      → MemorySyncStore Raw
      → ChangeOutcome × MemorySyncStore Raw
  apply_to_book none c device_id now s =
      if c.op == op_delete
      then (record zero_outcome { accepted = true }, s)
      else if not (eq_pos c.base_revision 0)
      then (record zero_outcome { reason = Reason.conflict }, s)
      else append_event c device_id 1 EventStatus.done now (record s {
        books =
            insert c.entity_id (record { revision = 1; deleted = false; payload = c.payload })
              s.books;
      })
  apply_to_book (some book) c device_id now s =
      if not (eq_pos c.base_revision book.revision)
      then append_conflict c device_id book.revision book.payload now s
      else append_event c device_id (book.revision + 1) EventStatus.done now
          (record s { books = insert c.entity_id (changed_book c book) s.books })

  -- `source` is not read.
  unfoldable pub apply_book_change :
      Change Raw
      → String
      → String
      → Time
      → MemorySyncStore Raw
      → ChangeOutcome × MemorySyncStore Raw
  apply_book_change c source device_id now s =
      if is_some (lookup c.change_id s.change_ids)
      then (record zero_outcome { accepted = true; reason = Reason.duplicate }, s)
      else apply_to_book (lookup c.entity_id s.books) c device_id now s

  -- The row after an authoritative write.
  unfoldable pub forced_book : RawMessage Raw → Option (MemoryBook Raw) → MemoryBook Raw
  forced_book payload none = record { revision = 1; deleted = false; payload = payload }
  forced_book payload (some book) = record {
    revision = book.revision + 1;
    deleted = false;
    payload = payload;
  }

  -- A server's own write of a book: the row, and an event under the given change id.
  unfoldable pub write_book_row :
      String
      → String
      → RawMessage Raw
      → String
      → Time
      → MemorySyncStore Raw
      → ChangeOutcome × MemorySyncStore Raw
  write_book_row change_id entity_id payload device_id now s =
      let row = forced_book payload (lookup entity_id s.books) in
      append_event
        (record {
          change_id = change_id;
          entity_type = entity_book;
          entity_id = entity_id;
          op = op_upsert;
          base_revision = pos 0;
          payload = payload;
        })
        device_id row.revision EventStatus.done now
        (record s { books = insert entity_id row s.books })

  unfoldable pub force_upsert_book :
      String
      → RawMessage Raw
      → String
      → Time
      → MemorySyncStore Raw
      → ChangeOutcome × MemorySyncStore Raw
  force_upsert_book entity_id payload device_id now s =
      write_book_row ("force-" <> entity_id) entity_id payload device_id now s
