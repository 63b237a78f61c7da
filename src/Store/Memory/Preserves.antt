-- ===== src/Store/Memory/Preserves.antt =====
-- The methods that write entities or books, and the well-formedness of the memory store.
use telebook_server.Prelude.{
  insert-Distinct, ℕ, ◌≤◌, String, not, Option, none, some, List, [], ◌∷◌, lookup, insert, is_some,
  arith, ◌==◌, if_rule,
}
use telebook_server.Prelude.Int.{eq_pos}
use telebook_server.Model.Book.{RawMessage, Time, Codec, BookSnapshotItem}
use telebook_server.Model.Sync.{Change, op_delete}
use telebook_server.Store.Memory.{MemorySyncStore, MemoryEntity, MemoryBook}
use telebook_server.Store.Memory.Entities.{
  apply_change, apply_to_entity, force_upsert, forced_row, changed_row, entity_key,
}
use telebook_server.Store.Memory.Books.{
  apply_book_change, apply_to_book, force_upsert_book, write_book_row, forced_book, changed_book,
}
use telebook_server.Store.Memory.Restore.{
  restore_parsed, restore_items, tombstone_books, tombstone_row, live_keys,
}
use telebook_server.Store.Memory.Invariant.{
  WellFormed, insert-IsPositive, append_event-WellFormed, append_conflict-WellFormed,
}

module _ {Raw : Type 0} where
  abbrev pub Keeps : {A : Type 0} → A × MemorySyncStore Raw → Type 0
  Keeps r = WellFormed (r.1)

  insert_entity-WellFormed :
      (k : String) (row : MemoryEntity Raw) (s : MemorySyncStore Raw)
      → 1 ≤ row.revision
      → WellFormed s
      → WellFormed (record s { entities = insert k row s.entities })
  insert_entity-WellFormed k row s p w = record {
    events = w.events;
    conflicts = w.conflicts;
    history = w.history;
    known = w.known;
    entities = insert-IsPositive k row s.entities p w.entities;
    books = w.books;
    distinct = w.distinct;
  }

  insert_book-WellFormed :
      (k : String) (row : MemoryBook Raw) (s : MemorySyncStore Raw)
      → 1 ≤ row.revision
      → WellFormed s
      → WellFormed (record s { books = insert k row s.books })
  insert_book-WellFormed k row s p w = record {
    events = w.events;
    conflicts = w.conflicts;
    history = w.history;
    known = w.known;
    entities = w.entities;
    books = insert-IsPositive k row s.books p w.books;
    distinct = insert-Distinct k row s.books w.distinct;
  }

  changed_row-pos : (c : Change Raw) (ent : MemoryEntity Raw) → 1 ≤ (changed_row c ent).revision
  unfolding changed_row
  changed_row-pos c ent = ground arith

  changed_book-pos : (c : Change Raw) (book : MemoryBook Raw) → 1 ≤ (changed_book c book).revision
  unfolding changed_book
  changed_book-pos c book = ground arith

  forced_row-pos :
      (p : RawMessage Raw) (o : Option (MemoryEntity Raw)) → 1 ≤ (forced_row p o).revision
  unfolding forced_row
  forced_row-pos p o = ground arith

  forced_book-pos :
      (p : RawMessage Raw) (o : Option (MemoryBook Raw)) → 1 ≤ (forced_book p o).revision
  unfolding forced_book
  forced_book-pos p o = ground arith

  apply_to_entity-WellFormed :
      (row : Option (MemoryEntity Raw)) (c : Change Raw) (device_id : String) (now : Time)
      (s : MemorySyncStore Raw)
      → WellFormed s
      → WellFormed (apply_to_entity row c device_id now s).1
  unfolding apply_to_entity
  apply_to_entity-WellFormed none c device_id now s w =
      if_rule Keeps (c.op == op_delete) (λ _. w)
        λ _.
          if_rule Keeps (not (eq_pos c.base_revision 0)) (λ _. w)
            λ _.
              append_event-WellFormed c device_id _ _ now _
                (insert_entity-WellFormed _ _ s (omega arith) w)
  apply_to_entity-WellFormed (some ent) c device_id now s w =
      if_rule Keeps (not (eq_pos c.base_revision ent.revision))
        (λ _. append_conflict-WellFormed c device_id _ _ now s w)
        λ _.
          append_event-WellFormed c device_id _ _ now _
            (insert_entity-WellFormed _ _ s (changed_row-pos c ent) w)

  pub apply_change-WellFormed :
      (c : Change Raw) (device_id : String) (now : Time) (s : MemorySyncStore Raw)
      → WellFormed s
      → WellFormed (apply_change c device_id now s).1
  unfolding apply_change
  apply_change-WellFormed c device_id now s w =
      if_rule Keeps (is_some (lookup c.change_id s.change_ids)) (λ _. w)
        λ _. apply_to_entity-WellFormed _ c device_id now s w

  pub force_upsert-WellFormed :
      (t i : String) (payload : RawMessage Raw) (device_id : String) (now : Time)
      (s : MemorySyncStore Raw)
      → WellFormed s
      → WellFormed (force_upsert t i payload device_id now s).1
  unfolding force_upsert
  force_upsert-WellFormed t i payload device_id now s w =
      append_event-WellFormed _ device_id _ _ now _ (
        insert_entity-WellFormed _ (forced_row payload (lookup (entity_key t i) s.entities)) s
          (forced_row-pos payload _) w)

  apply_to_book-WellFormed :
      (row : Option (MemoryBook Raw)) (c : Change Raw) (device_id : String) (now : Time)
      (s : MemorySyncStore Raw)
      → WellFormed s
      → WellFormed (apply_to_book row c device_id now s).1
  unfolding apply_to_book
  apply_to_book-WellFormed none c device_id now s w =
      if_rule Keeps (c.op == op_delete) (λ _. w)
        λ _.
          if_rule Keeps (not (eq_pos c.base_revision 0)) (λ _. w)
            λ _.
              append_event-WellFormed c device_id _ _ now _
                (insert_book-WellFormed _ _ s (omega arith) w)
  apply_to_book-WellFormed (some book) c device_id now s w =
      if_rule Keeps (not (eq_pos c.base_revision book.revision))
        (λ _. append_conflict-WellFormed c device_id _ _ now s w)
        λ _.
          append_event-WellFormed c device_id _ _ now _
            (insert_book-WellFormed _ _ s (changed_book-pos c book) w)

  pub apply_book_change-WellFormed :
      (c : Change Raw) (source device_id : String) (now : Time) (s : MemorySyncStore Raw)
      → WellFormed s
      → WellFormed (apply_book_change c source device_id now s).1
  unfolding apply_book_change
  apply_book_change-WellFormed c source device_id now s w =
      if_rule Keeps (is_some (lookup c.change_id s.change_ids)) (λ _. w)
        λ _. apply_to_book-WellFormed _ c device_id now s w

  pub write_book_row-WellFormed :
      (id i : String) (payload : RawMessage Raw) (device_id : String) (now : Time)
      (s : MemorySyncStore Raw)
      → WellFormed s
      → WellFormed (write_book_row id i payload device_id now s).1
  unfolding write_book_row
  write_book_row-WellFormed id i payload device_id now s w =
      append_event-WellFormed _ device_id _ _ now _ (
        insert_book-WellFormed _ (forced_book payload (lookup i s.books)) s
          (forced_book-pos payload _) w)

  pub force_upsert_book-WellFormed :
      (i : String) (payload : RawMessage Raw) (device_id : String) (now : Time)
      (s : MemorySyncStore Raw)
      → WellFormed s
      → WellFormed (force_upsert_book i payload device_id now s).1
  unfolding force_upsert_book
  force_upsert_book-WellFormed i payload device_id now s w =
      write_book_row-WellFormed _ i payload device_id now s w

  tombstone_row-WellFormed :
      (row : Option (MemoryBook Raw)) (i device_id : String) (now : Time) (s : MemorySyncStore Raw)
      → WellFormed s
      → WellFormed (tombstone_row row i device_id now s).1
  unfolding tombstone_row
  tombstone_row-WellFormed none i device_id now s w = w
  tombstone_row-WellFormed (some book) i device_id now s w =
      append_event-WellFormed _ device_id _ _ now _ (insert_book-WellFormed _ _ s (ground arith) w)

  tombstone_books-WellFormed :
      (ids : List String) (m : ℕ) (device_id : String) (now : Time) (s : MemorySyncStore Raw)
      → WellFormed s
      → WellFormed (tombstone_books ids m device_id now s).1
  unfolding tombstone_books
  tombstone_books-WellFormed [] m device_id now s w = w
  tombstone_books-WellFormed (i ∷ ids) m device_id now s w =
      tombstone_books-WellFormed ids _ device_id now _
        (tombstone_row-WellFormed (lookup i s.books) i device_id now s w)

  restore_items-WellFormed :
      (codec : Codec Raw) (items : List (BookSnapshotItem Raw)) (current : List String) (m : ℕ)
      (device_id : String) (now : Time) (s : MemorySyncStore Raw)
      → WellFormed s
      → WellFormed (restore_items codec items current m device_id now s).2
  unfolding restore_items
  restore_items-WellFormed codec [] current m device_id now s w = w
  restore_items-WellFormed codec (item ∷ items) current m device_id now s w =
      restore_items-WellFormed codec items _ _ device_id now _
        (write_book_row-WellFormed _ item.uuid _ device_id now s w)

  pub restore_parsed-WellFormed :
      (codec : Codec Raw) (order : List String → List String) (items : List (BookSnapshotItem Raw))
      (device_id : String) (now : Time) (s : MemorySyncStore Raw)
      → WellFormed s
      → WellFormed (restore_parsed codec order items device_id now s).1
  unfolding restore_parsed
  restore_parsed-WellFormed codec order items device_id now s w =
      tombstone_books-WellFormed _ _ device_id now _
        (restore_items-WellFormed codec items (live_keys s.books) 0 device_id now s w)
