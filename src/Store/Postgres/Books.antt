-- ===== src/Store/Postgres/Books.antt =====
-- internal/store/book_store.go: `ApplyBookChange` and `ForceUpsertBook` of `PGBookStore`.
-- `fresh` is `serverChangeID`: a text for each event that the server writes on its own.
use telebook_server.Prelude.{
  ℕ, suc, ◌+◌, String, true, not, Option, none, some, lookup, ◌==◌, if◌then◌else◌,
}
use telebook_server.Prelude.Int.{ℤ, pos, eq_pos}
use telebook_server.Model.Errors.{Error}
use telebook_server.Model.Action.{Action, pure, raise, ◌>>=◌, ◌>>◌}
use telebook_server.Model.Book.{RawMessage, Time, Codec}
use telebook_server.Model.Sync.{
  Change, ChangeOutcome, op_delete, op_upsert, op_progress, entity_book,
}
use telebook_server.Store.Postgres.{SyncTables, BookRow, BookData, transaction}
use telebook_server.Store.Postgres.Rows.{
  change_exists, insert_event, log_accepted, log_refused, duplicate_outcome, accepted_outcome,
  refused_outcome, payload_data, parse_book_payload, put_row, write_row, fits_integer,
}

module _ {Raw : Type 0} where
  -- The event of a book is one of the type book, whatever the change says.
  abbrev pub book_event : Change Raw → Change Raw
  book_event c = record c { entity_type = entity_book }

  -- The row with another page.
  unfoldable pub paged_row : ℤ → BookRow Raw → BookRow Raw
  paged_row page row = record row {
    data_of = record (row.data_of) { current_page = page };
    progress_revision = row.progress_revision + 1;
  }

  unfoldable pub buried_row : BookRow Raw → BookRow Raw
  buried_row row = record row { revision = row.revision + 1; deleted = true }

  -- The UPDATE of the page, whose column is an INTEGER.
  unfoldable pub set_page : String → ℤ → BookRow Raw → Action (SyncTables Raw) ℕ
  unfolding paged_row
  set_page id page row =
      if fits_integer page then put_row id (paged_row page row) else raise Error.database_error

  abbrev pub server_change : String → String → String → RawMessage Raw → Change Raw
  server_change change_id entity_id op payload = record {
    change_id = change_id;
    entity_type = entity_book;
    entity_id = entity_id;
    op = op;
    base_revision = pos 0;
    payload = payload;
  }

  -- The authoritative write of a book and its event, under the change id of the event's number.
  unfoldable pub force_book :
      (ℕ → String)
      → String
      → Option (BookData Raw)
      → RawMessage Raw
      → String
      → Time
      → Action (SyncTables Raw) ChangeOutcome
  force_book fresh entity_id d payload device_id now t =
      (do
        revision ← write_row entity_id d (lookup entity_id t.current_book)
        log_accepted (server_change (fresh (suc t.event_seq)) entity_id op_upsert payload) revision
            device_id now)
        t

module _ {Raw : Type 0} (codec : Codec Raw) where
  unfoldable pub move_progress :
      Option (BookRow Raw) → Change Raw → String → Time → Action (SyncTables Raw) ChangeOutcome
  move_progress none c device_id now = pure accepted_outcome
  move_progress (some row) c device_id now = do
    set_page c.entity_id ((parse_book_payload codec c.payload).current_page) row
    insert_event (record (book_event c) { op = op_progress }) row.revision device_id now
    pure accepted_outcome

  unfoldable pub write_book_data : Option (BookRow Raw) → Change Raw → Action (SyncTables Raw) ℕ
  write_book_data old c = write_row c.entity_id (payload_data codec c.payload) old

  -- The statement of a change of the current revision.
  unfoldable pub change_row : BookRow Raw → Change Raw → Action (SyncTables Raw) ℕ
  unfolding buried_row write_book_data
  change_row row c =
      if c.op == op_delete
      then put_row c.entity_id (buried_row row)
      else write_book_data (some row) c

  -- The switch on the row that was found.
  unfoldable pub change_book :
      Option (BookRow Raw) → Change Raw → String → Time → Action (SyncTables Raw) ChangeOutcome
  change_book none c device_id now =
      if c.op == op_delete
      then pure accepted_outcome
      else if not (eq_pos c.base_revision 0)
      then pure (refused_outcome 0)
      else do revision ← write_book_data none c; log_accepted (book_event c) revision device_id now
  change_book (some row) c device_id now =
      if not (eq_pos c.base_revision row.revision)
      then log_refused c row.revision device_id now
      else do revision ← change_row row c; log_accepted (book_event c) revision device_id now

  unfoldable pub decide_book :
      Option (BookRow Raw) → Change Raw → String → Time → Action (SyncTables Raw) ChangeOutcome
  unfolding move_progress change_book
  decide_book row c device_id now =
      if c.op == op_progress
      then move_progress row c device_id now
      else change_book row c device_id now

  unfoldable pub book_body : Change Raw → String → Time → Action (SyncTables Raw) ChangeOutcome
  unfolding decide_book
  book_body c device_id now t =
      if change_exists c.change_id t.event_tables.sync_events
      then pure duplicate_outcome t
      else decide_book (lookup c.entity_id t.current_book) c device_id now t

  -- `source` is not read, nor is the old payload that the query builds.
  unfoldable pub apply_book_change :
      Change Raw → String → String → Time → Action (SyncTables Raw) ChangeOutcome
  unfolding book_body
  apply_book_change c source device_id now = transaction (book_body c device_id now)

  unfoldable pub force_upsert_book :
      (ℕ → String) → String → RawMessage Raw → String → Time → Action (SyncTables Raw) ChangeOutcome
  unfolding force_book
  force_upsert_book fresh entity_id payload device_id now =
      transaction (force_book fresh entity_id (payload_data codec payload) payload device_id now)
