-- ===== src/Store/Memory/Restoration.antt =====
-- `RestoreLibrary` over the memory store, and the library afterwards.
use telebook_server.Prelude.{
  has, ℕ, ◌+◌, String, ◌≡◌, refl, true, not, ◌&&◌, Option, none, some, List, [], ◌∷◌, map, GoMap,
  lookup, lookup-insert, Distinct, keep, is_some, length, arith, eq_iff, ◌==◌, if◌then◌else◌,
}
use telebook_server.Model.Errors.{ok}
use telebook_server.Model.Book.{RawMessage, Time, Codec, BookSnapshotItem, BookRestoreResult}
use telebook_server.Store.Memory.{MemorySyncStore, MemoryBook}
use telebook_server.Store.Memory.Log.{append_event}
use telebook_server.Store.Memory.Books.{write_book_row, forced_book}
use telebook_server.Store.Memory.Restore.{
  restore_library, restore_read, read_snapshot, restore_parsed, restore_items, tombstone_books,
  tombstone_row, live_keys, snapshot_item_payload,
}
use telebook_server.Store.Memory.Invariant.{WellFormed}
use telebook_server.Store.Memory.Replay.{live_payload}

has-keep :
    (k j : String) (xs : List String)
    → has k (keep (λ u. not (u == j)) xs) ≡ (has k xs && not (j == k))
unfolding has keep
has-keep k j [] = refl
has-keep k j (x ∷ xs) = ground (arith, has-keep k j xs, eq_iff x j, eq_iff x k, eq_iff j k)

module _ {Raw : Type 0} where
  abbrev live : String → MemorySyncStore Raw → Option (RawMessage Raw)
  live id s = live_payload (lookup id s.books)

  write_book_row-live :
      (change i id : String) (p : RawMessage Raw) (device_id : String) (now : Time)
      (s : MemorySyncStore Raw)
      → live id (write_book_row change i p device_id now s).1
        ≡ (if i == id then some p else live id s)
  unfolding write_book_row append_event forced_book live_payload
  write_book_row-live change i id p device_id now s =
      ground (arith, lookup-insert i id (forced_book p (lookup i s.books)) s.books)

  tombstone_row-live :
      (o : Option (MemoryBook Raw)) (i id device_id : String) (now : Time) (s : MemorySyncStore Raw)
      → lookup i s.books ≡ o
      → live id (tombstone_row o i device_id now s).1 ≡ (if i == id then none else live id s)
  unfolding tombstone_row append_event live_payload
  tombstone_row-live none i id device_id now s e = ground (arith, eq_iff i id)
  tombstone_row-live (some b) i id device_id now s e =
      ground
        (arith, lookup-insert i id (record b { revision = b.revision + 1; deleted = true }) s.books)

  tombstone_books-live :
      (ids : List String) (m : ℕ) (id device_id : String) (now : Time) (s : MemorySyncStore Raw)
      → live id (tombstone_books ids m device_id now s).1 ≡ (if has id ids then none else live id s)
  unfolding tombstone_books has
  tombstone_books-live [] m id device_id now s = refl
  tombstone_books-live (i ∷ ids) m id device_id now s =
      rw (tombstone_books-live ids _ id device_id now _)
        (rw (tombstone_row-live (lookup i s.books) i id device_id now s refl) (ground arith))

  has-live_keys :
      (id : String) (m : GoMap (MemoryBook Raw))
      → Distinct m
      → has id (live_keys m) ≡ is_some (live_payload (lookup id m))
  unfolding has live_keys live_payload lookup
  has-live_keys id [] d = refl
  has-live_keys id ((k, b) ∷ m) d = ground (arith, has-live_keys id m d.1, eq_iff k id)

module _ {Raw : Type 0} (codec : Codec Raw) where
  -- The payload of a book that the items give, the last one of its id; `v` where there is none.
  unfoldable pub wanted :
      String → Option (RawMessage Raw) → List (BookSnapshotItem Raw) → Option (RawMessage Raw)
  wanted id v [] = v
  wanted id v (item ∷ items) =
      wanted id (if item.uuid == id then some (snapshot_item_payload codec item) else v) items

  abbrev uuids : List (BookSnapshotItem Raw) → List String
  uuids items = map (λ i. i.uuid) items

  wanted-listed :
      (id : String) (v : Option (RawMessage Raw)) (items : List (BookSnapshotItem Raw))
      → wanted id v items ≡ (if has id (uuids items) then wanted id none items else v)
  unfolding wanted has
  wanted-listed id v [] = refl
  wanted-listed id v (i ∷ is) =
      ground
        (arith, wanted-listed id (some (snapshot_item_payload codec i)) is, wanted-listed id v is)

  restore_items-live :
      (items : List (BookSnapshotItem Raw)) (current : List String) (m : ℕ) (id device_id : String)
      (now : Time) (s : MemorySyncStore Raw)
      → live id (restore_items codec items current m device_id now s).2
        ≡ wanted id (live id s) items
  unfolding restore_items wanted
  restore_items-live [] current m id device_id now s = refl
  restore_items-live (i ∷ is) current m id device_id now s =
      rw (restore_items-live is _ _ id device_id now _)
        (rw (write_book_row-live _ i.uuid id (snapshot_item_payload codec i) device_id now s) refl)

  restore_items-current :
      (items : List (BookSnapshotItem Raw)) (current : List String) (m : ℕ) (id device_id : String)
      (now : Time) (s : MemorySyncStore Raw)
      → has id (restore_items codec items current m device_id now s).0
        ≡ (has id current && not (has id (uuids items)))
  unfolding restore_items has
  restore_items-current [] current m id device_id now s = ground arith
  restore_items-current (i ∷ is) current m id device_id now s =
      rw (restore_items-current is _ _ id device_id now _)
        (rw (has-keep id i.uuid current) (ground arith))

  -- The order in which a map is walked leaves out no key and adds none.
  abbrev pub IsWalk : (List String → List String) → Type 0
  IsWalk order = (id : String) (ids : List String) → has id (order ids) ≡ has id ids

  restore_parsed-live :
      (order : List String → List String) (items : List (BookSnapshotItem Raw))
      (id device_id : String) (now : Time) (s : MemorySyncStore Raw)
      → IsWalk order
      → Distinct s.books
      → live id (restore_parsed codec order items device_id now s).1 ≡ wanted id none items
  unfolding restore_parsed
  restore_parsed-live order items id device_id now s walk d =
      rw (tombstone_books-live _ _ id device_id now _) (
        rw (walk id _) (
          rw (restore_items-current items _ _ id device_id now s) (
            rw (restore_items-live items _ _ id device_id now s) (
              rw (has-live_keys id s.books d) (
                ground (arith, wanted-listed id (live id s) items, wanted-listed id none items))))))

  -- Restoring a snapshot that parses succeeds, whatever the order in which maps are walked, and
  -- leaves exactly the library of the snapshot: a book that an item names has the payload of the
  -- last such item, and every other book is gone or deleted.
  pub restore_library_exact :
      (order : List String → List String) (snapshot : RawMessage Raw)
      (items : List (BookSnapshotItem Raw)) (device_id : String) (now : Time)
      (s : MemorySyncStore Raw)
      → IsWalk order
      → WellFormed s
      → read_snapshot codec snapshot ≡ ok items
      → (result : BookRestoreResult) × (t : MemorySyncStore Raw) × (restore_library codec order
            snapshot device_id now s
          ≡ (ok result, t))
        × (result.restored ≡ length items)
        × ((id : String) → live_payload (lookup id t.books) ≡ wanted id none items)
  unfolding restore_library restore_read
  restore_library_exact order snapshot items device_id now s walk w parsed = (
    (restore_parsed codec order items device_id now s).0,
    (restore_parsed codec order items device_id now s).1,
    rw parsed,
    unfold restore_parsed in refl,
    λ id. restore_parsed-live order items id device_id now s walk w.distinct,
  )
