-- ===== src/Store/Postgres/Steps.antt =====
-- The PostgreSQL stores as a transition system: one step for each transaction that succeeds or
-- fails, and what every history keeps.
use telebook_server.Prelude.{
  length, Bool, some, ℕ, String, ◌≡◌, refl, Bool, true, false, none, some, length, List, [], ◌∷◌,
  All, lookup, ◌==◌,
}
use telebook_server.Model.Errors.{Holds, Result, ok, err}
use telebook_server.Model.Action.{pure, Action, lift, gets, continue, ◌>>=◌}
use telebook_server.Model.Book.{BookRestoreResult, RawMessage, Time, Codec, BookSnapshotItem}
use telebook_server.Model.Sync.{Change, entity_book}
use telebook_server.Store.Events.{update_cursor}
use telebook_server.Store.Memory.Restore.{snapshot_item_payload, read_snapshot}
use telebook_server.Store.Memory.Replay.{delivered}
use telebook_server.Store.Postgres.{ConflictRow, SyncTables, BookData, transaction, empty_tables}
use telebook_server.Store.Postgres.Rows.{payload_data}
use telebook_server.Store.Postgres.Replay.{Mirrored, client, live_data, same_rows-Mirrored}
use telebook_server.Store.Postgres.Convergence.{
  Mirrors, settle-Mirrored, force_book-Mirrored, bury-Mirrored, apply_book_change-Mirrored,
  force_upsert_book-Mirrored, apply_change-Mirrored, force_upsert-Mirrored,
}
use telebook_server.Store.Postgres.Books.{apply_book_change, force_upsert_book, force_book}
use telebook_server.Store.Postgres.Entities.{apply_change, force_upsert}
use telebook_server.Store.Postgres.Restore.{
  restore_library, restore_body, restore_rows, bury_all, bury, item_data, live_ids,
}
use telebook_server.Store.Postgres.History.{insert_snapshot}
use telebook_server.Store.Postgres.Conflicts.{mark_resolved, after_update, close_row}

module _ {Raw : Type 0} (codec : Codec Raw) where
  -- What the event of a restored book says is what the row gets.
  abbrev pub ReadsBack : BookSnapshotItem Raw → Type 0
  ReadsBack item =
      (d : BookData Raw)
      → item_data codec item ≡ some d
      → payload_data codec (snapshot_item_payload codec item) ≡ some d

  -- Of the items of a snapshot that parses.
  abbrev pub AllReadBack : RawMessage Raw → Type 0
  AllReadBack snapshot = Holds (All ReadsBack) (read_snapshot codec snapshot)

  continue-Mirrors :
      {A B : Type 0} (r : Result A × SyncTables Raw) (f : A → Action (SyncTables Raw) B)
      → Mirrors codec r
      → ((a : A) (u : SyncTables Raw) → Mirrored codec u → Mirrors codec (f a u))
      → Mirrors codec (continue (r.0) f (r.1))
  continue-Mirrors (ok a, u) f v g = g a u v
  continue-Mirrors (err e, u) f v g = v

  bury_all-Mirrored :
      (fresh : ℕ → String) (ids : List String) (m : ℕ) (device_id : String) (now : Time)
      (t : SyncTables Raw)
      → Mirrored codec t
      → Mirrors codec (bury_all fresh ids m device_id now t)
  unfolding bury_all
  bury_all-Mirrored fresh [] m device_id now t v = v
  bury_all-Mirrored fresh (i ∷ ids) m device_id now t v =
      continue-Mirrors (bury fresh (lookup i t.current_book) i device_id now t) _
        (bury-Mirrored codec fresh (lookup i t.current_book) i device_id now t v)
        λ revision u w. bury_all-Mirrored fresh ids _ device_id now u w

  restore_rows-Mirrored :
      (fresh : ℕ → String) (items : List (BookSnapshotItem Raw)) (current : List String) (m : ℕ)
      (device_id : String) (now : Time) (t : SyncTables Raw)
      → All ReadsBack items
      → Mirrored codec t
      → Mirrors codec (restore_rows codec fresh items current m device_id now t)
  unfolding restore_rows
  restore_rows-Mirrored fresh [] current m device_id now t h v = v
  restore_rows-Mirrored fresh (item ∷ items) current m device_id now t h v =
      continue-Mirrors
        (force_book fresh item.uuid (item_data codec item) (snapshot_item_payload codec item)
          device_id now t)
        _ (force_book-Mirrored codec fresh item.uuid _ _ device_id now t (h.0) v)
        λ outcome u w. restore_rows-Mirrored fresh items _ _ device_id now u (h.1) w

  restore_library-Mirrored :
      (fresh : ℕ → String) (order : List String → List String) (snapshot : RawMessage Raw)
      (device_id : String) (now : Time) (t : SyncTables Raw)
      → AllReadBack snapshot
      → Mirrored codec t
      → Mirrors codec (restore_library codec fresh order snapshot device_id now t)
  unfolding restore_library transaction restore_body
  restore_library-Mirrored fresh order snapshot device_id now t h v =
      settle-Mirrored codec t _ v (parsed (read_snapshot codec snapshot) h)
    where
      parsed :
          (r : Result (List (BookSnapshotItem Raw)))
          → Holds (All ReadsBack) r
          → Mirrors codec {A = BookRestoreResult} (
              (do
                items ← lift r
                current ← gets (λ t. live_ids t.current_book)
                left ← restore_rows codec fresh items current 0 device_id now
                revision ← bury_all fresh (order (left.0)) (left.1) device_id now
                pure (record { restored = length items; revision = revision }))
                t)
      parsed (err e) k = v
      parsed (ok items) k =
          continue-Mirrors
            (restore_rows codec fresh items (live_ids t.current_book) 0 device_id now t) _
            (restore_rows-Mirrored fresh items (live_ids t.current_book) 0 device_id now t k v)
            λ left u w.
              continue-Mirrors (bury_all fresh (order (left.0)) (left.1) device_id now u) _
                (bury_all-Mirrored fresh (order (left.0)) (left.1) device_id now u w)
                λ revision z x. x

  insert_snapshot-Mirrored :
      (op_type tag : String) (snapshot : RawMessage Raw) (now : Time) (t : SyncTables Raw)
      → Mirrored codec t
      → Mirrors codec (insert_snapshot op_type tag snapshot now t)
  unfolding insert_snapshot
  insert_snapshot-Mirrored op_type tag none now t v = same_rows-Mirrored codec t _ refl refl v
  insert_snapshot-Mirrored op_type tag (some raw) now t v = same_rows-Mirrored codec t _ refl refl v

  after_update-Mirrored :
      (r : List ConflictRow × Bool) (t : SyncTables Raw)
      → Mirrored codec t
      → Mirrors codec (after_update r t)
  unfolding after_update
  after_update-Mirrored (rows, true) t v = same_rows-Mirrored codec t _ refl refl v
  after_update-Mirrored (rows, false) t v = same_rows-Mirrored codec t _ refl refl v

  -- A call of one of the stores that may write, whether it succeeds or not. As the service routes
  -- them, the store of the entities gets no books.
  pub data Step : SyncTables Raw → SyncTables Raw → Type 0 where
    entity_changed :
        (c : Change Raw) (device_id : String) (now : Time) (t : SyncTables Raw)
        → (c.entity_type == entity_book) ≡ false
        → Step t (apply_change codec c device_id now t).1
    entity_forced :
        (fresh : ℕ → String) (ty id : String) (payload : RawMessage Raw) (device_id : String)
        (now : Time) (t : SyncTables Raw)
        → (ty == entity_book) ≡ false
        → Step t (force_upsert codec fresh ty id payload device_id now t).1
    book_changed :
        (c : Change Raw) (source device_id : String) (now : Time) (t : SyncTables Raw)
        → Step t (apply_book_change codec c source device_id now t).1
    book_forced :
        (fresh : ℕ → String) (id : String) (payload : RawMessage Raw) (device_id : String)
        (now : Time) (t : SyncTables Raw)
        → Step t (force_upsert_book codec fresh id payload device_id now t).1
    restored :
        (fresh : ℕ → String) (order : List String → List String) (snapshot : RawMessage Raw)
        (device_id : String) (now : Time) (t : SyncTables Raw)
        → Step t (restore_library codec fresh order snapshot device_id now t).1
    snapshot_recorded :
        (op_type tag : String) (snapshot : RawMessage Raw) (now : Time) (t : SyncTables Raw)
        → Step t (insert_snapshot op_type tag snapshot now t).1
    cursor_moved :
        (device_id : String) (last : ℕ) (t : SyncTables Raw)
        → Step t (record t { event_tables = update_cursor device_id last t.event_tables })
    conflict_closed :
        (id : ℕ) (device_id : String) (t : SyncTables Raw) → Step t (mark_resolved id device_id t).1

  pub data Reach (s : SyncTables Raw) : SyncTables Raw → Type 0 where
    here : Reach s s
    next : {t u : SyncTables Raw} → Reach s t → Step t u → Reach s u

  -- If the step restores a snapshot, then its events read back.
  abbrev pub StepReadsBack : {s t : SyncTables Raw} → Step s t → Type 0
  StepReadsBack (restored fresh order snapshot device_id now t) = AllReadBack snapshot
  StepReadsBack _ = Unit

  -- Every restored snapshot of the history has events that read back.
  abbrev pub RestoresReadBack : {s t : SyncTables Raw} → Reach s t → Type 0
  RestoresReadBack here = Unit
  RestoresReadBack (next r st) = RestoresReadBack r × StepReadsBack st

  Step-Mirrored :
      {s t : SyncTables Raw} (st : Step s t)
      → StepReadsBack st
      → Mirrored codec s
      → Mirrored codec t
  unfolding update_cursor mark_resolved
  Step-Mirrored (entity_changed c d now t other) h v = apply_change-Mirrored codec c d now t other v
  Step-Mirrored (entity_forced fresh ty id p d now t other) h v =
      force_upsert-Mirrored codec fresh ty id p d now t other v
  Step-Mirrored (book_changed c src d now t) h v = apply_book_change-Mirrored codec c src d now t v
  Step-Mirrored (book_forced fresh id p d now t) h v =
      force_upsert_book-Mirrored codec fresh id p d now t v
  Step-Mirrored (restored fresh order snap d now t) h v =
      restore_library-Mirrored fresh order snap d now t h v
  Step-Mirrored (snapshot_recorded o tag p now t) h v = insert_snapshot-Mirrored o tag p now t v
  Step-Mirrored (cursor_moved d last t) h v = same_rows-Mirrored codec t _ refl refl v
  Step-Mirrored (conflict_closed id d t) h v =
      after_update-Mirrored (close_row id d t.conflicts) t v

  empty-Mirrored : Mirrored codec (empty_tables {Raw = Raw})
  unfolding empty_tables delivered client live_data lookup
  empty-Mirrored = record { at_book = λ id. refl }

  Reach-Mirrored :
      {s t : SyncTables Raw} (r : Reach s t)
      → RestoresReadBack r
      → Mirrored codec s
      → Mirrored codec t
  Reach-Mirrored here h v = v
  Reach-Mirrored (next r st) h v = Step-Mirrored st (h.1) (Reach-Mirrored r (h.0) v)

  -- After any sequence of calls on empty tables, successful or not, where the store of the entities
  -- gets no books and every restored snapshot has events that read back, a client that applied
  -- every event that is sent, with an event of progress moving the page of a book that it has,
  -- has for every id the name, page, cover and files of the row of the book, and no book where
  -- there is no row or a deleted one.
  pub reachable-Mirrored :
      {t : SyncTables Raw} (r : Reach (empty_tables {Raw = Raw}) t)
      → RestoresReadBack r
      → Mirrored codec t
  reachable-Mirrored r h = Reach-Mirrored r h empty-Mirrored
