-- ===== src/Store/Memory/Restore.antt =====
-- internal/store/memory_sync_store.go: `RestoreLibrary` and `SnapshotLibrary`, with
-- `snapshotItemPayload` of internal/store/book_store.go. Go leaves the order in which a map is
-- walked open: it is the argument `order`, which permutes the keys.
use Prim.Native.String.{◌++◌ as ◌<>◌}
use telebook_server.Prelude.{
  ℕ, ◌+◌, String, true, not, Option, none, some, List, [], ◌∷◌, map, GoMap, lookup, insert, keep,
  length, ltb, ◌==◌, if◌then◌else◌,
}
use telebook_server.Prelude.Int.{pos}
use telebook_server.Model.Errors.{Error, Result, ok, err}
use telebook_server.Model.Book.{
  RawMessage, Time, Codec, BookPayload, zero_payload, BookSnapshotItem, BookRestoreResult,
}
use telebook_server.Model.Sync.{op_delete, entity_book}
use telebook_server.Store.Memory.{MemorySyncStore, MemoryBook, EventStatus}
use telebook_server.Store.Memory.Log.{append_event}
use telebook_server.Store.Memory.Books.{write_book_row}

abbrev pub max_of : ℕ → ℕ → ℕ
max_of a b = if ltb a b then b else a

-- `nilOrString`: `none` is NULL.
unfoldable pub nil_or_string : String → Option String
nil_or_string s = if s == "" then none else some s

module _ {Raw : Type 0} where
  -- The set of the books that are not deleted.
  unfoldable pub live_keys : GoMap (MemoryBook Raw) → List String
  live_keys [] = []
  live_keys ((k, book) ∷ m) = let rest = live_keys m in if book.deleted then rest else k ∷ rest

  -- A key of the set is a key of the map: the row is there.
  unfoldable pub tombstone_row :
      Option (MemoryBook Raw)
      → String
      → String
      → Time
      → MemorySyncStore Raw
      → ℕ × MemorySyncStore Raw
  tombstone_row none uuid device_id now s = (0, s)
  tombstone_row (some book) uuid device_id now s =
      let row = record book { revision = book.revision + 1; deleted = true } in
      (
        row.revision,
        (append_event
            (record {
              change_id = "restore-del-" <> uuid;
              entity_type = entity_book;
              entity_id = uuid;
              op = op_delete;
              base_revision = pos 0;
              payload = none;
            })
            device_id row.revision EventStatus.done now
            (record s { books = insert uuid row s.books })).1,
      )

  -- The second loop, over the keys that no item took out of the set.
  unfoldable pub tombstone_books :
      List String → ℕ → String → Time → MemorySyncStore Raw → ℕ × MemorySyncStore Raw
  tombstone_books [] max_rev device_id now s = (max_rev, s)
  tombstone_books (uuid ∷ rest) max_rev device_id now s =
      let (rev, s') = tombstone_row (lookup uuid s.books) uuid device_id now s in
      tombstone_books rest (max_of max_rev rev) device_id now s'

module _ {Raw : Type 0} (codec : Codec Raw) where
  unfoldable pub item_files : RawMessage Raw → Raw
  item_files none = codec.empty_array
  item_files (some raw) = if codec.is_null raw then codec.empty_array else raw

  unfoldable pub snapshot_item_payload : BookSnapshotItem Raw → RawMessage Raw
  unfolding item_files nil_or_string
  snapshot_item_payload item = some (
      codec.write_book item.name item.current_page (nil_or_string item.cover_hash)
        (item_files item.files))

  -- The first loop: the set of the keys that are left, the greatest revision, the state.
  unfoldable pub restore_items :
      List (BookSnapshotItem Raw)
      → List String
      → ℕ
      → String
      → Time
      → MemorySyncStore Raw
      → List String × ℕ × MemorySyncStore Raw
  unfolding snapshot_item_payload
  restore_items [] current max_rev device_id now s = (current, max_rev, s)
  restore_items (item ∷ rest) current max_rev device_id now s =
      let (outcome, s') =
        write_book_row ("restore-" <> item.uuid) item.uuid (snapshot_item_payload item) device_id
          now s in
      restore_items rest (keep (λ u. not (u == item.uuid)) current)
        (max_of max_rev outcome.revision) device_id now s'

  unfoldable pub restore_parsed :
      (order : List String → List String)
      → List (BookSnapshotItem Raw)
      → String
      → Time
      → MemorySyncStore Raw
      → BookRestoreResult × MemorySyncStore Raw
  restore_parsed order items device_id now s =
      let (current, max_rev, s') = restore_items items (live_keys s.books) 0 device_id now s in
      let (revision, t) = tombstone_books (order current) max_rev device_id now s' in
      (record { restored = length items; revision = revision }, t)

  -- `json.Unmarshal` of the snapshot.
  unfoldable pub read_snapshot : RawMessage Raw → Result (List (BookSnapshotItem Raw))
  read_snapshot none = err Error.bad_json
  read_snapshot (some raw) = elim (codec.read_items raw) [
    | none ↦ err Error.bad_json
    | some items ↦ ok items
  ]

  unfoldable pub restore_read :
      (order : List String → List String)
      → Result (List (BookSnapshotItem Raw))
      → String
      → Time
      → MemorySyncStore Raw
      → Result BookRestoreResult × MemorySyncStore Raw
  restore_read order (err e) device_id now s = (err e, s)
  restore_read order (ok items) device_id now s =
      let (r, t) = restore_parsed order items device_id now s in (ok r, t)

  unfoldable pub restore_library :
      (order : List String → List String)
      → RawMessage Raw
      → String
      → Time
      → MemorySyncStore Raw
      → Result BookRestoreResult × MemorySyncStore Raw
  unfolding read_snapshot restore_read
  restore_library order snapshot device_id now s =
      restore_read order (read_snapshot snapshot) device_id now s

  -- The payload of a row, as far as it parses.
  unfoldable pub row_payload : RawMessage Raw → BookPayload
  row_payload none = zero_payload
  row_payload (some raw) = (codec.read_payload raw).0

  unfoldable pub row_files : RawMessage Raw → Raw
  row_files none = codec.empty_array
  row_files (some raw) = codec.write_files (codec.read_payload raw).0.files

  unfoldable pub snapshot_item : String → MemoryBook Raw → BookSnapshotItem Raw
  unfolding row_payload row_files
  snapshot_item uuid book =
      let p = row_payload book.payload in
      record {
        uuid = uuid;
        name = p.name;
        current_page = p.current_page;
        cover_hash = p.cover_hash;
        files = some (row_files book.payload);
        revision = book.revision;
      }

  -- The items in the order of a walk over the keys; a deleted book is skipped.
  unfoldable pub snapshot_items : List String → GoMap (MemoryBook Raw) → List (BookSnapshotItem Raw)
  unfolding snapshot_item
  snapshot_items [] books = []
  snapshot_items (uuid ∷ rest) books =
      let items = snapshot_items rest books in
      elim (lookup uuid books) [
        | none ↦ items
        | some book ↦ if book.deleted then items else snapshot_item uuid book ∷ items
      ]

  unfoldable pub snapshot_library :
      (order : List String → List String) → MemorySyncStore Raw → RawMessage Raw
  unfolding snapshot_items
  snapshot_library order s =
      some (codec.write_items (snapshot_items (order (map (λ e. e.0) s.books)) s.books))
