-- ===== src/Store/Postgres/Restore.antt =====
-- internal/store/book_store.go: `RestoreLibrary` and `SnapshotLibrary` of `PGBookStore`. `order`
-- is the order in which the map of the live books is walked, `by_id` that of ORDER BY.
use telebook_server.Prelude.{
  ℕ, suc, String, not, Option, none, some, List, [], ◌∷◌, GoMap, lookup, keep, length, ◌==◌,
  if◌then◌else◌,
}
use telebook_server.Model.Errors.{Error}
use telebook_server.Model.Action.{Action, pure, raise, lift, gets, ◌>>=◌, ◌>>◌}
use telebook_server.Model.Book.{RawMessage, Time, Codec, BookSnapshotItem, BookRestoreResult}
use telebook_server.Model.Sync.{op_delete}
use telebook_server.Store.Memory.Restore.{max_of, snapshot_item_payload, read_snapshot}
use telebook_server.Store.Postgres.{SyncTables, BookRow, BookData, transaction}
use telebook_server.Store.Postgres.Rows.{insert_event, put_row, normalize_payload, checked}
use telebook_server.Store.Postgres.Books.{buried_row, force_book, server_change}

module _ {Raw : Type 0} where
  -- The ids of the rows that are not deleted.
  unfoldable pub live_ids : GoMap (BookRow Raw) → List String
  live_ids [] = []
  live_ids ((id, row) ∷ m) = let rest = live_ids m in if row.deleted then rest else id ∷ rest

  -- The UPDATE of one id gives no row where there is none.
  unfoldable pub bury :
      (ℕ → String) → Option (BookRow Raw) → String → String → Time → Action (SyncTables Raw) ℕ
  unfolding buried_row
  bury fresh none uuid device_id now t = raise Error.no_rows t
  bury fresh (some row) uuid device_id now t =
      (do
        revision ← put_row uuid (buried_row row)
        insert_event (server_change (fresh (suc t.event_seq)) uuid op_delete none) revision
            device_id now
        pure revision)
        t

  -- The second loop, over the ids that no item took out of the set.
  unfoldable pub bury_all :
      (ℕ → String) → List String → ℕ → String → Time → Action (SyncTables Raw) ℕ
  unfolding bury
  bury_all fresh [] max_rev device_id now = pure max_rev
  bury_all fresh (uuid ∷ rest) max_rev device_id now = do
    row ← gets (λ t. lookup uuid t.current_book)
    revision ← bury fresh row uuid device_id now
    bury_all fresh rest (max_of max_rev revision) device_id now

module _ {Raw : Type 0} (codec : Codec Raw) where
  unfoldable pub item_data : BookSnapshotItem Raw → Option (BookData Raw)
  item_data item =
      checked item.name item.current_page item.cover_hash (normalize_payload codec item.files)

  -- The first loop: the ids that are left, and the greatest revision.
  unfoldable pub restore_rows :
      (ℕ → String)
      → List (BookSnapshotItem Raw)
      → List String
      → ℕ
      → String
      → Time
      → Action (SyncTables Raw) (List String × ℕ)
  unfolding item_data
  restore_rows fresh [] current max_rev device_id now = pure (current, max_rev)
  restore_rows fresh (item ∷ rest) current max_rev device_id now = do
    outcome ←
        force_book fresh item.uuid (item_data item) (snapshot_item_payload codec item) device_id now
    restore_rows fresh rest (keep (λ u. not (u == item.uuid)) current)
        (max_of max_rev outcome.revision) device_id now

  unfoldable pub restore_body :
      (ℕ → String)
      → (List String → List String)
      → RawMessage Raw
      → String
      → Time
      → Action (SyncTables Raw) BookRestoreResult
  unfolding restore_rows bury_all
  restore_body fresh order snapshot device_id now = do
    items ← lift (read_snapshot codec snapshot)
    current ← gets (λ t. live_ids t.current_book)
    left ← restore_rows fresh items current 0 device_id now
    revision ← bury_all fresh (order (left.0)) (left.1) device_id now
    pure (record { restored = length items; revision = revision })

  unfoldable pub restore_library :
      (ℕ → String)
      → (List String → List String)
      → RawMessage Raw
      → String
      → Time
      → Action (SyncTables Raw) BookRestoreResult
  unfolding restore_body
  restore_library fresh order snapshot device_id now =
      transaction (restore_body fresh order snapshot device_id now)

  unfoldable pub row_item : String → BookRow Raw → BookSnapshotItem Raw
  row_item id row = record {
    uuid = id;
    name = row.data_of.name;
    current_page = row.data_of.current_page;
    cover_hash = elim row.data_of.cover_hash [ none ↦ "" | some cover ↦ cover ];
    files = some row.data_of.files;
    revision = row.revision;
  }

  -- The rows of the query, in the order of their ids.
  unfoldable pub row_items : List String → GoMap (BookRow Raw) → List (BookSnapshotItem Raw)
  unfolding row_item
  row_items [] books = []
  row_items (id ∷ ids) books =
      let items = row_items ids books in
      elim (lookup id books) [ none ↦ items | some row ↦ row_item id row ∷ items ]

  unfoldable pub snapshot_library : (List String → List String) → SyncTables Raw → RawMessage Raw
  unfolding row_items
  snapshot_library by_id t =
      some (codec.write_items (row_items (by_id (live_ids t.current_book)) t.current_book))
