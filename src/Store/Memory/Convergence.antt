-- ===== src/Store/Memory/Convergence.antt =====
-- The writing methods of the memory store, and what the event stream says of the library.
use telebook_server.Prelude.{
  ℕ, String, ◌≡◌, refl, true, false, not, Option, none, some, List, [], ◌∷◌, lookup, is_some, arith,
  ◌==◌, if◌then◌else◌, if_rule,
}
use telebook_server.Prelude.Int.{eq_pos}
use telebook_server.Model.Errors.{Result, ok, err}
use telebook_server.Model.Book.{RawMessage, Time, Codec, BookSnapshotItem}
use telebook_server.Model.Sync.{Change, op_delete, entity_book}
use telebook_server.Store.Memory.{MemorySyncStore, MemoryEntity, MemoryBook, MemoryConflict}
use telebook_server.Store.Memory.Entities.{apply_change, apply_to_entity, force_upsert}
use telebook_server.Store.Memory.Books.{
  apply_book_change, apply_to_book, force_upsert_book, write_book_row, forced_book, changed_book,
}
use telebook_server.Store.Memory.Restore.{
  restore_parsed, restore_items, tombstone_books, tombstone_row, live_keys,
}
use telebook_server.Store.Memory.Reads.{insert_snapshot, update_cursor}
use telebook_server.Store.Memory.Conflicts.{mark_resolved, put_conflicts, mark_among}
use telebook_server.Store.Memory.Replay.{
  Converged, live_payload, append_event-Converged, append_other-Converged,
  append_conflict-Converged,
}

module _ {Raw : Type 0} where
  abbrev Converges : {A : Type 0} → A × MemorySyncStore Raw → Type 0
  Converges r = Converged (r.1)

  -- The books and the events decide.
  same_log-Converged :
      (s t : MemorySyncStore Raw)
      → t.events ≡ s.events
      → t.books ≡ s.books
      → Converged s
      → Converged t
  same_log-Converged s t e b v = record { at_book = λ id. rw (e, b) (v.at_book id) }

  apply_to_entity-Converged :
      (row : Option (MemoryEntity Raw)) (c : Change Raw) (device_id : String) (now : Time)
      (s : MemorySyncStore Raw)
      → (c.entity_type == entity_book) ≡ false
      → Converged s
      → Converged (apply_to_entity row c device_id now s).1
  unfolding apply_to_entity
  apply_to_entity-Converged none c device_id now s other v =
      if_rule Converges (c.op == op_delete) (λ _. v)
        λ _.
          if_rule Converges (not (eq_pos c.base_revision 0)) (λ _. v)
            λ _.
              append_other-Converged c device_id _ now _ other (same_log-Converged s _ refl refl v)
  apply_to_entity-Converged (some ent) c device_id now s other v =
      if_rule Converges (not (eq_pos c.base_revision ent.revision))
        (λ _. append_conflict-Converged c device_id _ _ now s v)
        λ _. append_other-Converged c device_id _ now _ other (same_log-Converged s _ refl refl v)

  pub apply_change-Converged :
      (c : Change Raw) (device_id : String) (now : Time) (s : MemorySyncStore Raw)
      → (c.entity_type == entity_book) ≡ false
      → Converged s
      → Converged (apply_change c device_id now s).1
  unfolding apply_change
  apply_change-Converged c device_id now s other v =
      if_rule Converges (is_some (lookup c.change_id s.change_ids)) (λ _. v)
        λ _. apply_to_entity-Converged _ c device_id now s other v

  pub force_upsert-Converged :
      (t i : String) (payload : RawMessage Raw) (device_id : String) (now : Time)
      (s : MemorySyncStore Raw)
      → (t == entity_book) ≡ false
      → Converged s
      → Converged (force_upsert t i payload device_id now s).1
  unfolding force_upsert
  force_upsert-Converged t i payload device_id now s other v =
      append_other-Converged _ device_id _ now _ other (same_log-Converged s _ refl refl v)

  changed_book-live :
      (c : Change Raw) (book : MemoryBook Raw)
      → live_payload (some (changed_book c book))
        ≡ (if c.op == op_delete then none else some c.payload)
  unfolding changed_book live_payload
  changed_book-live c book = ground arith

  forced_book-live :
      (p : RawMessage Raw) (o : Option (MemoryBook Raw))
      → live_payload (some (forced_book p o)) ≡ some p
  unfolding forced_book live_payload
  forced_book-live p none = refl
  forced_book-live p (some b) = refl

  apply_to_book-Converged :
      (row : Option (MemoryBook Raw)) (c : Change Raw) (device_id : String) (now : Time)
      (s : MemorySyncStore Raw)
      → (c.entity_type == entity_book) ≡ true
      → Converged s
      → Converged (apply_to_book row c device_id now s).1
  unfolding apply_to_book live_payload
  apply_to_book-Converged none c device_id now s book v =
      if_rule Converges (c.op == op_delete) (λ _. v)
        λ kept.
          if_rule Converges (not (eq_pos c.base_revision 0)) (λ _. v)
            λ _. append_event-Converged c device_id _ now s _ book (rw kept) v
  apply_to_book-Converged (some b) c device_id now s book v =
      if_rule Converges (not (eq_pos c.base_revision b.revision))
        (λ _. append_conflict-Converged c device_id _ _ now s v)
        λ _. append_event-Converged c device_id _ now s _ book (changed_book-live c b) v

  pub apply_book_change-Converged :
      (c : Change Raw) (source device_id : String) (now : Time) (s : MemorySyncStore Raw)
      → (c.entity_type == entity_book) ≡ true
      → Converged s
      → Converged (apply_book_change c source device_id now s).1
  unfolding apply_book_change
  apply_book_change-Converged c source device_id now s book v =
      if_rule Converges (is_some (lookup c.change_id s.change_ids)) (λ _. v)
        λ _. apply_to_book-Converged _ c device_id now s book v

  pub write_book_row-Converged :
      (id i : String) (payload : RawMessage Raw) (device_id : String) (now : Time)
      (s : MemorySyncStore Raw)
      → Converged s
      → Converged (write_book_row id i payload device_id now s).1
  unfolding write_book_row
  write_book_row-Converged id i payload device_id now s v =
      append_event-Converged _ device_id _ now s _ refl
        (forced_book-live payload (lookup i s.books)) v

  pub force_upsert_book-Converged :
      (i : String) (payload : RawMessage Raw) (device_id : String) (now : Time)
      (s : MemorySyncStore Raw)
      → Converged s
      → Converged (force_upsert_book i payload device_id now s).1
  unfolding force_upsert_book
  force_upsert_book-Converged i payload device_id now s v =
      write_book_row-Converged _ i payload device_id now s v

  pub tombstone_row-Converged :
      (row : Option (MemoryBook Raw)) (i device_id : String) (now : Time) (s : MemorySyncStore Raw)
      → Converged s
      → Converged (tombstone_row row i device_id now s).1
  unfolding tombstone_row live_payload
  tombstone_row-Converged none i device_id now s v = v
  tombstone_row-Converged (some book) i device_id now s v =
      append_event-Converged _ device_id _ now s _ refl refl v

  pub tombstone_books-Converged :
      (ids : List String) (m : ℕ) (device_id : String) (now : Time) (s : MemorySyncStore Raw)
      → Converged s
      → Converged (tombstone_books ids m device_id now s).1
  unfolding tombstone_books
  tombstone_books-Converged [] m device_id now s v = v
  tombstone_books-Converged (i ∷ ids) m device_id now s v =
      tombstone_books-Converged ids _ device_id now _
        (tombstone_row-Converged (lookup i s.books) i device_id now s v)

  pub restore_items-Converged :
      (codec : Codec Raw) (items : List (BookSnapshotItem Raw)) (current : List String) (m : ℕ)
      (device_id : String) (now : Time) (s : MemorySyncStore Raw)
      → Converged s
      → Converged (restore_items codec items current m device_id now s).2
  unfolding restore_items
  restore_items-Converged codec [] current m device_id now s v = v
  restore_items-Converged codec (item ∷ items) current m device_id now s v =
      restore_items-Converged codec items _ _ device_id now _
        (write_book_row-Converged _ item.uuid _ device_id now s v)

  pub restore_parsed-Converged :
      (codec : Codec Raw) (order : List String → List String) (items : List (BookSnapshotItem Raw))
      (device_id : String) (now : Time) (s : MemorySyncStore Raw)
      → Converged s
      → Converged (restore_parsed codec order items device_id now s).1
  unfolding restore_parsed
  restore_parsed-Converged codec order items device_id now s v =
      tombstone_books-Converged _ _ device_id now _
        (restore_items-Converged codec items (live_keys s.books) 0 device_id now s v)

  put_conflicts-Converged :
      (r : Result (List (MemoryConflict Raw))) (s : MemorySyncStore Raw)
      → Converged s
      → Converged (put_conflicts r s).1
  unfolding put_conflicts
  put_conflicts-Converged (ok ds) s v = same_log-Converged s _ refl refl v
  put_conflicts-Converged (err e) s v = v

  pub mark_resolved-Converged :
      (id : ℕ) (device_id : String) (s : MemorySyncStore Raw)
      → Converged s
      → Converged (mark_resolved id device_id s).1
  unfolding mark_resolved
  mark_resolved-Converged id device_id s v = put_conflicts-Converged (mark_among id s.conflicts) s v

  pub insert_snapshot-Converged :
      (op_type tag : String) (snapshot : RawMessage Raw) (now : Time) (s : MemorySyncStore Raw)
      → Converged s
      → Converged (insert_snapshot op_type tag snapshot now s).1
  unfolding insert_snapshot
  insert_snapshot-Converged op_type tag snapshot now s v = same_log-Converged s _ refl refl v

  pub update_cursor-Converged :
      (device_id : String) (last : ℕ) (s : MemorySyncStore Raw)
      → Converged s
      → Converged (update_cursor device_id last s)
  unfolding update_cursor
  update_cursor-Converged device_id last s v = same_log-Converged s _ refl refl v
