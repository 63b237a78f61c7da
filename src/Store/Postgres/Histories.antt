-- ===== src/Store/Postgres/Histories.antt =====
-- Every history of the PostgreSQL stores keeps the tables sound.
use telebook_server.Model.Sync.{op_delete}
use telebook_server.Store.Postgres.Books.{server_change}
use telebook_server.Prelude.{
  length, ◌==◌, inl, inr, Ascending-raise, Bool-cases, ℕ, suc, String, Bool, true, false, not, ◌&&◌,
  Option, none, some, List, [], ◌∷◌, lookup, All, Ascending, Ascending-append, eqb, arith, keep,
}
use telebook_server.Model.Errors.{ok}
use telebook_server.Model.Book.{RawMessage, Time, Codec, BookSnapshotItem}
use telebook_server.Store.Events.{update_cursor}
use telebook_server.Store.Memory.{MemoryEvent}
use telebook_server.Store.Memory.Restore.{max_of, snapshot_item_payload, read_snapshot}
use telebook_server.Store.Memory.Conflicts.{is_open}
use telebook_server.Store.Postgres.{SyncTables, BookRow, ConflictRow, empty_tables}
use telebook_server.Store.Postgres.Restore.{
  restore_library, restore_body, restore_rows, bury_all, bury, item_data, live_ids,
}
use telebook_server.Store.Postgres.History.{insert_snapshot}
use telebook_server.Store.Postgres.Conflicts.{close_row, after_update, mark_resolved}
use telebook_server.Store.Postgres.Soundness.{
  Sound, Later, IsSafe, Refers, Later-refl, transaction-IsSafe, bind-IsSafe, reading-IsSafe,
}
use telebook_server.Store.Postgres.Preserves.{insert_event-IsSafe}
use telebook_server.Store.Postgres.Operations.{
  apply_book_change-IsSafe, force_book-IsSafe, force_upsert_book-IsSafe, apply_change-IsSafe,
  force_upsert-IsSafe, buried_row-IsSafe,
}
use telebook_server.Store.Postgres.Steps.{
  Step, Reach, here, next, entity_changed, entity_forced, book_changed, book_forced, restored,
  snapshot_recorded, cursor_moved, conflict_closed,
}

close_row-Ascending :
    (id : ℕ) (device_id : String) (lo : ℕ) (cs : List ConflictRow) (hi : ℕ)
    → Ascending (λ c. c.id) lo cs hi
    → Ascending (λ c. c.id) lo (close_row id device_id cs).0 hi
unfolding close_row
close_row-Ascending id device_id lo [] hi h = h
close_row-Ascending id device_id lo (c ∷ cs) hi h =
    elim (Bool-cases (eqb c.id id && is_open c.status)) [
      | inl e ↦ rw e (h.0, close_row-Ascending id device_id c.id cs hi h.1)
      | inr e ↦ rw e (h.0, close_row-Ascending id device_id c.id cs hi h.1)
    ]

module _ {Raw : Type 0} where
  bury-IsSafe :
      (fresh : ℕ → String) (old : Option (BookRow Raw)) (id device_id : String) (now : Time)
      → IsSafe (bury fresh old id device_id now)
  unfolding bury
  bury-IsSafe fresh none id device_id now = record { at = λ t w. Later-refl t w }
  bury-IsSafe fresh (some row) id device_id now = record {
    at = λ t w.
        (bind-IsSafe _ _ (buried_row-IsSafe id row) λ rev.
            bind-IsSafe _ _
              (insert_event-IsSafe (server_change (fresh (suc t.event_seq)) id op_delete none) rev
                device_id now)
              λ n. reading-IsSafe λ u. ok rev).at
          t w;
  }

  bury_all-IsSafe :
      (fresh : ℕ → String) (ids : List String) (m : ℕ) (device_id : String) (now : Time)
      → IsSafe {Raw = Raw} (bury_all fresh ids m device_id now)
  unfolding bury_all
  bury_all-IsSafe fresh [] m device_id now = reading-IsSafe λ t. ok m
  bury_all-IsSafe fresh (i ∷ ids) m device_id now =
      bind-IsSafe _ _ (reading-IsSafe λ t. ok (lookup i t.current_book)) λ row.
        bind-IsSafe _ _ (bury-IsSafe fresh row i device_id now)
          λ rev. bury_all-IsSafe fresh ids (max_of m rev) device_id now

  insert_snapshot-IsSafe :
      (op_type tag : String) (snapshot : RawMessage Raw) (now : Time)
      → IsSafe (insert_snapshot op_type tag snapshot now)
  unfolding insert_snapshot
  insert_snapshot-IsSafe op_type tag none now = record {
    at = λ t w. record {
      sound = record {
        events = w.events;
        conflicts = w.conflicts;
        history = Ascending-raise (λ h. h.id) 0 _ _ t.book_history (omega arith) w.history;
        refers = w.refers;
        entities = w.entities;
        books = w.books;
        distinct = w.distinct;
      };
      event_seq = omega arith;
      conflict_seq = omega arith;
      history_seq = omega arith;
    };
  }
  insert_snapshot-IsSafe op_type tag (some raw) now = record {
    at = λ t w. record {
      sound = record {
        events = w.events;
        conflicts = w.conflicts;
        history =
            Ascending-append (λ h. h.id) 0 t.history_seq t.book_history _ (omega arith) w.history;
        refers = w.refers;
        entities = w.entities;
        books = w.books;
        distinct = w.distinct;
      };
      event_seq = omega arith;
      conflict_seq = omega arith;
      history_seq = omega arith;
    };
  }

  close_row-Refers :
      (id : ℕ) (device_id : String) (es : List (MemoryEvent Raw)) (cs : List ConflictRow)
      → All (Refers es) cs
      → All (Refers es) (close_row id device_id cs).0
  unfolding close_row
  close_row-Refers id device_id es [] h = h
  close_row-Refers id device_id es (c ∷ cs) h =
      elim (Bool-cases (eqb c.id id && is_open c.status)) [
        | inl e ↦ rw e (h.0, close_row-Refers id device_id es cs h.1)
        | inr e ↦ rw e (h.0, close_row-Refers id device_id es cs h.1)
      ]

  with_conflicts-Later :
      (cs : List ConflictRow) (t : SyncTables Raw)
      → Sound t
      → Ascending (λ c. c.id) 0 cs t.conflict_seq
      → All (Refers t.event_tables.sync_events) cs
      → Later t (record t { conflicts = cs })
  with_conflicts-Later cs t w a r = record {
    sound = record {
      events = w.events;
      conflicts = a;
      history = w.history;
      refers = r;
      entities = w.entities;
      books = w.books;
      distinct = w.distinct;
    };
    event_seq = omega arith;
    conflict_seq = omega arith;
    history_seq = omega arith;
  }

  after_update-Later :
      (r : List ConflictRow × Bool) (t : SyncTables Raw)
      → Later t (record t { conflicts = r.0 })
      → Later t (after_update r t).1
  unfolding after_update
  after_update-Later (cs, true) t h = h
  after_update-Later (cs, false) t h = h

  mark_resolved-IsSafe :
      (id : ℕ) (device_id : String) → IsSafe (mark_resolved {Raw = Raw} id device_id)
  unfolding mark_resolved
  mark_resolved-IsSafe id device_id = record {
    at = λ t w. after_update-Later (close_row id device_id t.conflicts) t (
        with_conflicts-Later _ t w
          (close_row-Ascending id device_id 0 t.conflicts t.conflict_seq w.conflicts)
          (close_row-Refers id device_id t.event_tables.sync_events t.conflicts w.refers));
  }

module _ {Raw : Type 0} (codec : Codec Raw) where
  restore_rows-IsSafe :
      (fresh : ℕ → String) (items : List (BookSnapshotItem Raw)) (current : List String) (m : ℕ)
      (device_id : String) (now : Time)
      → IsSafe (restore_rows codec fresh items current m device_id now)
  unfolding restore_rows
  restore_rows-IsSafe fresh [] current m device_id now = reading-IsSafe λ t. ok (current, m)
  restore_rows-IsSafe fresh (item ∷ items) current m device_id now =
      bind-IsSafe _ _
        (force_book-IsSafe codec fresh item.uuid (item_data codec item)
          (snapshot_item_payload codec item) device_id now)
        λ o.
          restore_rows-IsSafe fresh items (keep (λ u. not (u == item.uuid)) current)
            (max_of m o.revision) device_id now

  restore_library-IsSafe :
      (fresh : ℕ → String) (order : List String → List String) (snapshot : RawMessage Raw)
      (device_id : String) (now : Time)
      → IsSafe (restore_library codec fresh order snapshot device_id now)
  unfolding restore_library restore_body
  restore_library-IsSafe fresh order snapshot device_id now = transaction-IsSafe _ (
      bind-IsSafe _ _ (reading-IsSafe λ t. read_snapshot codec snapshot) λ items.
        bind-IsSafe _ _ (reading-IsSafe λ t. ok (live_ids t.current_book)) λ current.
          bind-IsSafe _ _ (restore_rows-IsSafe fresh items current 0 device_id now) λ left.
            bind-IsSafe _ _ (bury_all-IsSafe fresh (order (left.0)) (left.1) device_id now)
              λ rev. reading-IsSafe λ t. ok (record { restored = length items; revision = rev }))

  Step-Sound : {s t : SyncTables Raw} → Step codec s t → Sound s → Sound t
  unfolding update_cursor
  Step-Sound (entity_changed c d now t other) w = ((apply_change-IsSafe codec c d now).at t w).sound
  Step-Sound (entity_forced fresh ty id p d now t other) w =
      ((force_upsert-IsSafe codec fresh ty id p d now).at t w).sound
  Step-Sound (book_changed c src d now t) w =
      ((apply_book_change-IsSafe codec c src d now).at t w).sound
  Step-Sound (book_forced fresh id p d now t) w =
      ((force_upsert_book-IsSafe codec fresh id p d now).at t w).sound
  Step-Sound (restored fresh order snap d now t) w =
      ((restore_library-IsSafe fresh order snap d now).at t w).sound
  Step-Sound (snapshot_recorded o tag p now t) w =
      ((insert_snapshot-IsSafe o tag p now).at t w).sound
  Step-Sound (cursor_moved d last t) w = record {
    events = w.events;
    conflicts = w.conflicts;
    history = w.history;
    refers = w.refers;
    entities = w.entities;
    books = w.books;
    distinct = w.distinct;
  }
  Step-Sound (conflict_closed id d t) w = ((mark_resolved-IsSafe id d).at t w).sound

  empty-Sound : Sound (empty_tables {Raw = Raw})
  unfolding empty_tables
  empty-Sound = record {
    events = omega arith;
    conflicts = omega arith;
    history = omega arith;
    refers = tt;
    entities = tt;
    books = tt;
    distinct = tt;
  }

  -- After any sequence of calls on empty tables, successful or not, where the store of the entities
  -- gets no books, the ids of events, conflicts and archives rise up to the last value of the sequence of their table, every conflict has its
  -- event, which is one of the same entity, no entity and no book has the revision 0, and no book
  -- has two rows.
  pub reachable-Sound : {t : SyncTables Raw} → Reach codec (empty_tables {Raw = Raw}) t → Sound t
  reachable-Sound here = empty-Sound
  reachable-Sound (next r st) = Step-Sound st (reachable-Sound r)
