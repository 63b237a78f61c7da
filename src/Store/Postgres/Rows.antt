-- ===== src/Store/Postgres/Rows.antt =====
-- internal/store/entity_store.go and internal/store/book_store.go: the statements on
-- `sync_events` and `conflicts` that the stores share, and the values of the columns of a book.
use telebook_server.Prelude.{
  ℕ, suc, ◌+◌, String, Bool, true, false, ◌||◌, Option, none, some, List, [], ◌∷◌, ◌++◌, insert,
  ltb, ◌==◌, if◌then◌else◌,
}
use telebook_server.Prelude.Int.{ℤ, pos, negsuc}
use telebook_server.Model.Errors.{Error}
use telebook_server.Model.Action.{Action, pure, raise, total, ◌>>=◌}
use telebook_server.Model.Book.{
  RawMessage, Time, Codec, Slice, BookFileMeta, BookPayload, zero_payload,
}
use telebook_server.Model.Sync.{Change, ChangeOutcome, zero_outcome, Reason}
use telebook_server.Model.Conflict.{open_conflict}
use telebook_server.Store.Memory.{MemoryEvent, EventStatus}
use telebook_server.Store.Memory.Restore.{nil_or_string}
use telebook_server.Store.Postgres.{SyncTables, BookRow, BookData}

-- The range of INTEGER.
unfoldable pub fits_integer : ℤ → Bool
fits_integer (pos n) = ltb n 2147483648
fits_integer (negsuc n) = ltb n 2147483648

abbrev pub duplicate_outcome : ChangeOutcome
duplicate_outcome = record zero_outcome { accepted = true; reason = Reason.duplicate }

abbrev pub accepted_outcome : ChangeOutcome
accepted_outcome = record zero_outcome { accepted = true }

abbrev pub refused_outcome : ℕ → ChangeOutcome
refused_outcome conflict_id = record zero_outcome {
  reason = Reason.conflict;
  conflict_id = conflict_id;
}

module _ {Raw : Type 0} where
  -- `SELECT EXISTS` on the change id.
  unfoldable pub change_exists : String → List (MemoryEvent Raw) → Bool
  change_exists change_id [] = false
  change_exists change_id (e ∷ es) = e.change_id == change_id || change_exists change_id es

  -- An INSERT into `sync_events`, which gives the new id.
  unfoldable pub put_event :
      Change Raw → ℕ → String → EventStatus → Time → SyncTables Raw → ℕ × SyncTables Raw
  put_event c revision device_id status now t =
      let id = suc t.event_seq in
      (
        id,
        record t {
          event_seq = id;
          event_tables = record (t.event_tables) {
            sync_events =
                t.event_tables.sync_events
                ++ record {
                  change_id = c.change_id;
                  status = status;
                  event = record {
                    id = id;
                    entity_type = c.entity_type;
                    entity_id = c.entity_id;
                    op = c.op;
                    revision = revision;
                    payload = c.payload;
                    device_id = device_id;
                    created_at = now;
                  };
                }
                  ∷ [];
          };
        },
      )

  -- `insertEvent` with the status done; its columns come as a change.
  unfoldable pub insert_event : Change Raw → ℕ → String → Time → Action (SyncTables Raw) ℕ
  insert_event c revision device_id now =
      total (put_event c revision device_id EventStatus.done now)

  unfoldable pub put_conflict : Change Raw → ℕ → ℕ → Time → SyncTables Raw → ℕ × SyncTables Raw
  put_conflict c event_id current_rev now t =
      let id = suc t.conflict_seq in
      (
        id,
        record t {
          conflict_seq = id;
          conflicts =
              t.conflicts
              ++ record {
                id = id;
                event_id = event_id;
                entity_type = c.entity_type;
                entity_id = c.entity_id;
                base_revision = c.base_revision;
                current_revision = current_rev;
                status = open_conflict;
                resolved_by = none;
                created_at = now;
              }
                ∷ [];
        },
      )

  -- `insertConflict` and `insertBookConflict`, whose statements are the same.
  unfoldable pub insert_conflict : Change Raw → String → ℕ → Time → Action (SyncTables Raw) ℕ
  insert_conflict c device_id current_rev now = do
    event_id ← total (put_event c current_rev device_id EventStatus.conflict now)
    total (put_conflict c event_id current_rev now)

  -- The event of an accepted change, and the outcome of the change.
  unfoldable pub log_accepted :
      Change Raw → ℕ → String → Time → Action (SyncTables Raw) ChangeOutcome
  log_accepted c revision device_id now = do
    event_id ← insert_event c revision device_id now
    pure (record accepted_outcome { revision = revision; event_id = event_id })

  unfoldable pub log_refused :
      Change Raw → ℕ → String → Time → Action (SyncTables Raw) ChangeOutcome
  log_refused c current_rev device_id now = do
    conflict_id ← insert_conflict c device_id current_rev now
    pure (refused_outcome conflict_id)

module _ {Raw : Type 0} where
  -- The columns of a statement that writes a book, if their constraints hold: the page is an
  -- INTEGER and the files are NOT NULL.
  unfoldable pub checked : String → ℤ → String → Option Raw → Option (BookData Raw)
  unfolding nil_or_string
  checked name current_page cover_hash files =
      if fits_integer current_page
      then elim files [
        | none ↦ none
        | some raw ↦ some (record {
          name = name;
          current_page = current_page;
          cover_hash = nil_or_string cover_hash;
          files = raw;
        })
      ]
      else none

module _ {Raw : Type 0} (codec : Codec Raw) where
  unfoldable pub normalize_payload : RawMessage Raw → Option Raw
  normalize_payload none = none
  normalize_payload (some raw) = if codec.is_null raw then none else some raw

  unfoldable pub parse_book_payload : RawMessage Raw → BookPayload
  parse_book_payload none = zero_payload
  parse_book_payload (some raw) =
      if codec.is_null raw then zero_payload else (codec.read_payload raw).0

  unfoldable pub files_json : Slice BookFileMeta → Option Raw
  files_json none = none
  files_json (some files) = some (codec.write_files (some files))

  unfoldable pub payload_data : RawMessage Raw → Option (BookData Raw)
  payload_data payload =
      let p = parse_book_payload payload in
      checked p.name p.current_page p.cover_hash (files_json p.files)

module _ {Raw : Type 0} where
  -- The row that is written over the row that was found: a new one has the revision 1.
  unfoldable pub written_row : BookData Raw → Option (BookRow Raw) → BookRow Raw
  written_row d none = record { data_of = d; revision = 1; progress_revision = 0; deleted = false }
  written_row d (some row) = record row {
    data_of = d;
    revision = row.revision + 1;
    deleted = false;
  }

  abbrev pub put_row : String → BookRow Raw → Action (SyncTables Raw) ℕ
  put_row id row =
      total λ t. (row.revision, record t { current_book = insert id row t.current_book })

  -- The INSERT, the UPDATE and the `ON CONFLICT` statements on a book, which give its revision.
  unfoldable pub write_row :
      String → Option (BookData Raw) → Option (BookRow Raw) → Action (SyncTables Raw) ℕ
  unfolding written_row
  write_row id none old = raise Error.database_error
  write_row id (some d) old = put_row id (written_row d old)
