-- ===== src/Store/Memory/Steps.antt =====
-- The memory store as a transition system: a step is a call of a writing method as the services
-- route it, a history is a sequence of steps, in whatever order the devices' requests take the
-- mutex.
use telebook_server.Prelude.{ℕ, String, ◌≡◌, refl, true, false, List, lookup, ◌==◌}
use telebook_server.Model.Book.{RawMessage, Time, Codec, BookSnapshotItem}
use telebook_server.Model.Sync.{Change, entity_book}
use telebook_server.Store.Memory.{MemorySyncStore, new_memory_sync_store}
use telebook_server.Store.Memory.Entities.{apply_change, force_upsert}
use telebook_server.Store.Memory.Books.{apply_book_change, force_upsert_book}
use telebook_server.Store.Memory.Restore.{restore_parsed}
use telebook_server.Store.Memory.Reads.{insert_snapshot, update_cursor}
use telebook_server.Store.Memory.Conflicts.{mark_resolved}
use telebook_server.Store.Memory.Invariant.{WellFormed, new-WellFormed}
use telebook_server.Store.Memory.Preserves.{
  apply_change-WellFormed, force_upsert-WellFormed, apply_book_change-WellFormed,
  force_upsert_book-WellFormed, restore_parsed-WellFormed,
}
use telebook_server.Store.Memory.Bookkeeping.{
  insert_snapshot-WellFormed, update_cursor-WellFormed, mark_resolved-WellFormed,
}
use telebook_server.Store.Memory.Replay.{Converged, delivered, replay, live_payload}
use telebook_server.Store.Memory.Convergence.{
  apply_change-Converged, force_upsert-Converged, apply_book_change-Converged,
  force_upsert_book-Converged, restore_parsed-Converged, insert_snapshot-Converged,
  update_cursor-Converged, mark_resolved-Converged,
}

module _ {Raw : Type 0} where
  pub data Step : MemorySyncStore Raw → MemorySyncStore Raw → Type 0 where
    entity_changed :
        (c : Change Raw) (device_id : String) (now : Time) (s : MemorySyncStore Raw)
        → (c.entity_type == entity_book) ≡ false
        → Step s (apply_change c device_id now s).1
    entity_forced :
        (t i : String) (payload : RawMessage Raw) (device_id : String) (now : Time)
        (s : MemorySyncStore Raw)
        → (t == entity_book) ≡ false
        → Step s (force_upsert t i payload device_id now s).1
    book_changed :
        (c : Change Raw) (source device_id : String) (now : Time) (s : MemorySyncStore Raw)
        → (c.entity_type == entity_book) ≡ true
        → Step s (apply_book_change c source device_id now s).1
    book_forced :
        (i : String) (payload : RawMessage Raw) (device_id : String) (now : Time)
        (s : MemorySyncStore Raw)
        → Step s (force_upsert_book i payload device_id now s).1
    restored :
        (codec : Codec Raw) (order : List String → List String)
        (items : List (BookSnapshotItem Raw)) (device_id : String) (now : Time)
        (s : MemorySyncStore Raw)
        → Step s (restore_parsed codec order items device_id now s).1
    snapshot_recorded :
        (op_type tag : String) (snapshot : RawMessage Raw) (now : Time) (s : MemorySyncStore Raw)
        → Step s (insert_snapshot op_type tag snapshot now s).1
    cursor_moved :
        (device_id : String) (last : ℕ) (s : MemorySyncStore Raw)
        → Step s (update_cursor device_id last s)
    conflict_closed :
        (id : ℕ) (device_id : String) (s : MemorySyncStore Raw)
        → Step s (mark_resolved id device_id s).1

  pub data Reach (s : MemorySyncStore Raw) : MemorySyncStore Raw → Type 0 where
    here : Reach s s
    next : {t u : MemorySyncStore Raw} → Reach s t → Step t u → Reach s u

  pub Reach-trans : {s t u : MemorySyncStore Raw} → Reach s t → Reach t u → Reach s u
  Reach-trans r here = r
  Reach-trans r (next q st) = next (Reach-trans r q) st

  pub Step-WellFormed : {s t : MemorySyncStore Raw} → Step s t → WellFormed s → WellFormed t
  Step-WellFormed (entity_changed c d now s other) w = apply_change-WellFormed c d now s w
  Step-WellFormed (entity_forced t i p d now s other) w = force_upsert-WellFormed t i p d now s w
  Step-WellFormed (book_changed c src d now s book) w = apply_book_change-WellFormed c src d now s w
  Step-WellFormed (book_forced i p d now s) w = force_upsert_book-WellFormed i p d now s w
  Step-WellFormed (restored codec order items d now s) w =
      restore_parsed-WellFormed codec order items d now s w
  Step-WellFormed (snapshot_recorded o t p now s) w = insert_snapshot-WellFormed o t p now s w
  Step-WellFormed (cursor_moved d last s) w = update_cursor-WellFormed d last s w
  Step-WellFormed (conflict_closed id d s) w = mark_resolved-WellFormed id d s w

  pub Step-Converged : {s t : MemorySyncStore Raw} → Step s t → Converged s → Converged t
  Step-Converged (entity_changed c d now s other) v = apply_change-Converged c d now s other v
  Step-Converged (entity_forced t i p d now s other) v =
      force_upsert-Converged t i p d now s other v
  Step-Converged (book_changed c src d now s book) v =
      apply_book_change-Converged c src d now s book v
  Step-Converged (book_forced i p d now s) v = force_upsert_book-Converged i p d now s v
  Step-Converged (restored codec order items d now s) v =
      restore_parsed-Converged codec order items d now s v
  Step-Converged (snapshot_recorded o t p now s) v = insert_snapshot-Converged o t p now s v
  Step-Converged (cursor_moved d last s) v = update_cursor-Converged d last s v
  Step-Converged (conflict_closed id d s) v = mark_resolved-Converged id d s v

  pub Reach-WellFormed : {s t : MemorySyncStore Raw} → WellFormed s → Reach s t → WellFormed t
  Reach-WellFormed w here = w
  Reach-WellFormed w (next r st) = Step-WellFormed st (Reach-WellFormed w r)

  Reach-Converged : {s t : MemorySyncStore Raw} → Converged s → Reach s t → Converged t
  Reach-Converged v here = v
  Reach-Converged v (next r st) = Step-Converged st (Reach-Converged v r)

  -- After any history from the empty store, events, conflicts and history entries are numbered
  -- 1, 2, … without a gap up to the store's counters, the change id of every event is known to the
  -- duplicate test, and no entity and no book has revision 0, and no book has two rows.
  pub reachable-WellFormed :
      {s : MemorySyncStore Raw} → Reach (new_memory_sync_store {Raw = Raw}) s → WellFormed s
  reachable-WellFormed r = Reach-WellFormed new-WellFormed r

  new-Converged : Converged (new_memory_sync_store {Raw = Raw})
  unfolding new_memory_sync_store delivered replay live_payload lookup
  new-Converged = record { at_book = λ id. refl }

  -- After any history from the empty store, a client that has applied every event that the server
  -- sends has, for every id, the payload of the server's book of that id, and no book where the
  -- server has none or a deleted one.
  pub reachable-Converged :
      {s : MemorySyncStore Raw} → Reach (new_memory_sync_store {Raw = Raw}) s → Converged s
  reachable-Converged r = Reach-Converged new-Converged r
