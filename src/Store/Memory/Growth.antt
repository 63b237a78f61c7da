-- ===== src/Store/Memory/Growth.antt =====
-- What no operation of the memory store takes back: the log and the revisions.
use mathlib.Core.List.{append-nil, append_assoc}
use telebook_server.Prelude.{
  ℕ, ◌≤◌, String, ◌≡◌, refl, sym, ◌∙◌, not, Option, none, some, List, [], ◌∷◌, ◌++◌, GoMap, lookup,
  insert, lookup-insert, is_some, arith, eq_iff, ◌==◌, if_rule,
}
use telebook_server.Prelude.Int.{eq_pos}
use telebook_server.Model.Errors.{Result, ok, err}
use telebook_server.Model.Book.{RawMessage, Time, Codec, BookSnapshotItem}
use telebook_server.Model.Sync.{Change, op_delete}
use telebook_server.Store.Memory.{
  MemorySyncStore, MemoryEntity, MemoryEvent, MemoryConflict, EventStatus,
}
use telebook_server.Store.Memory.Log.{append_event, append_conflict}
use telebook_server.Store.Memory.Entities.{
  apply_change, apply_to_entity, force_upsert, forced_row, changed_row, entity_key,
}
use telebook_server.Store.Memory.Books.{
  apply_book_change, apply_to_book, force_upsert_book, write_book_row, forced_book, changed_book,
}
use telebook_server.Store.Memory.Restore.{
  restore_parsed, restore_items, tombstone_books, tombstone_row, live_keys,
}
use telebook_server.Store.Memory.Reads.{insert_snapshot, update_cursor}
use telebook_server.Store.Memory.Conflicts.{mark_resolved, put_conflicts, mark_among}
use telebook_server.Store.Memory.Steps.{
  Step, Reach, here, next, entity_changed, entity_forced, book_changed, book_forced, restored,
  snapshot_recorded, cursor_moved, conflict_closed,
}

module _ {Raw : Type 0} where
  -- The revision of a row, 0 where there is none.
  abbrev pub revision_of : Option (MemoryEntity Raw) → ℕ
  revision_of none = 0
  revision_of (some row) = row.revision

  pub record Grows (s t : MemorySyncStore Raw) : Type 0 where
    pub log : (es : List (MemoryEvent Raw)) × (t.events ≡ s.events ++ es)
    pub books : (id : String) → revision_of (lookup id s.books) ≤ revision_of (lookup id t.books)
    pub entities :
        (k : String) → revision_of (lookup k s.entities) ≤ revision_of (lookup k t.entities)

  Grows-refl : (s : MemorySyncStore Raw) → Grows s s
  Grows-refl s = record {
    log = ([], sym (append-nil s.events));
    books = λ id. omega arith;
    entities = λ k. omega arith;
  }

  Grows-trans : {s t u : MemorySyncStore Raw} → Grows s t → Grows t u → Grows s u
  Grows-trans {s} g h = record {
    log = (g.log.0 ++ h.log.0, h.log.1 ∙ rw g.log.1 (append_assoc s.events g.log.0 h.log.0));
    books = λ id. omega (arith, g.books id, h.books id);
    entities = λ k. omega (arith, g.entities k, h.entities k);
  }

  insert-grows :
      (k j : String) (row : MemoryEntity Raw) (m : GoMap (MemoryEntity Raw))
      → revision_of (lookup k m) ≤ row.revision
      → revision_of (lookup j m) ≤ revision_of (lookup j (insert k row m))
  insert-grows k j row m h = ground (arith, lookup-insert k j row m, eq_iff k j)

  append_event-Grows :
      (c : Change Raw) (device_id : String) (rev : ℕ) (st : EventStatus) (now : Time)
      (s : MemorySyncStore Raw)
      → Grows s (append_event c device_id rev st now s).1
  unfolding append_event
  append_event-Grows c device_id rev st now s = record {
    log = (_, refl);
    books = λ id. omega arith;
    entities = λ k. omega arith;
  }

  append_conflict-Grows :
      (c : Change Raw) (device_id : String) (rev : ℕ) (p : RawMessage Raw) (now : Time)
      (s : MemorySyncStore Raw)
      → Grows s (append_conflict c device_id rev p now s).1
  unfolding append_conflict
  append_conflict-Grows c device_id rev p now s = record {
    log = (_, refl);
    books = λ id. omega arith;
    entities = λ k. omega arith;
  }

  put_book-Grows :
      (k : String) (row : MemoryEntity Raw) (s : MemorySyncStore Raw)
      → revision_of (lookup k s.books) ≤ row.revision
      → Grows s (record s { books = insert k row s.books })
  put_book-Grows k row s h = record {
    log = ([], sym (append-nil s.events));
    books = λ id. insert-grows k id row s.books h;
    entities = λ j. omega arith;
  }

  put_entity-Grows :
      (k : String) (row : MemoryEntity Raw) (s : MemorySyncStore Raw)
      → revision_of (lookup k s.entities) ≤ row.revision
      → Grows s (record s { entities = insert k row s.entities })
  put_entity-Grows k row s h = record {
    log = ([], sym (append-nil s.events));
    books = λ id. omega arith;
    entities = λ j. insert-grows k j row s.entities h;
  }

  abbrev GrowsFrom : {A : Type 0} → MemorySyncStore Raw → A × MemorySyncStore Raw → Type 0
  GrowsFrom s r = Grows s (r.1)

  apply_to_entity-Grows :
      (o : Option (MemoryEntity Raw)) (c : Change Raw) (device_id : String) (now : Time)
      (s : MemorySyncStore Raw)
      → lookup (entity_key c.entity_type c.entity_id) s.entities ≡ o
      → Grows s (apply_to_entity o c device_id now s).1
  unfolding apply_to_entity
  apply_to_entity-Grows none c device_id now s e =
      if_rule (GrowsFrom s) (c.op == op_delete) (λ _. Grows-refl s)
        λ _.
          if_rule (GrowsFrom s) (not (eq_pos c.base_revision 0)) (λ _. Grows-refl s)
            λ _.
              Grows-trans (put_entity-Grows _ _ s (rw e (omega arith)))
                (append_event-Grows c device_id 1 _ now _)
  apply_to_entity-Grows (some ent) c device_id now s e =
      if_rule (GrowsFrom s) (not (eq_pos c.base_revision ent.revision))
        (λ _. append_conflict-Grows c device_id _ _ now s)
        λ _.
          Grows-trans
            (put_entity-Grows _ (changed_row c ent) s (rw e (unfold changed_row in ground arith)))
            (append_event-Grows c device_id _ _ now _)

  apply_to_book-Grows :
      (o : Option (MemoryEntity Raw)) (c : Change Raw) (device_id : String) (now : Time)
      (s : MemorySyncStore Raw)
      → lookup c.entity_id s.books ≡ o
      → Grows s (apply_to_book o c device_id now s).1
  unfolding apply_to_book
  apply_to_book-Grows none c device_id now s e =
      if_rule (GrowsFrom s) (c.op == op_delete) (λ _. Grows-refl s)
        λ _.
          if_rule (GrowsFrom s) (not (eq_pos c.base_revision 0)) (λ _. Grows-refl s)
            λ _.
              Grows-trans (put_book-Grows _ _ s (rw e (omega arith)))
                (append_event-Grows c device_id 1 _ now _)
  apply_to_book-Grows (some book) c device_id now s e =
      if_rule (GrowsFrom s) (not (eq_pos c.base_revision book.revision))
        (λ _. append_conflict-Grows c device_id _ _ now s)
        λ _.
          Grows-trans
            (put_book-Grows _ (changed_book c book) s (rw e (unfold changed_book in ground arith)))
            (append_event-Grows c device_id _ _ now _)

  write_book_row-Grows :
      (id i : String) (p : RawMessage Raw) (device_id : String) (now : Time)
      (s : MemorySyncStore Raw)
      → Grows s (write_book_row id i p device_id now s).1
  unfolding write_book_row
  write_book_row-Grows id i p device_id now s =
      Grows-trans
        (put_book-Grows i (forced_book p (lookup i s.books)) s (unfold forced_book in ground arith))
        (append_event-Grows _ device_id _ _ now _)

  tombstone_row-Grows :
      (o : Option (MemoryEntity Raw)) (i device_id : String) (now : Time) (s : MemorySyncStore Raw)
      → lookup i s.books ≡ o
      → Grows s (tombstone_row o i device_id now s).1
  unfolding tombstone_row
  tombstone_row-Grows none i device_id now s e = Grows-refl s
  tombstone_row-Grows (some book) i device_id now s e =
      Grows-trans (put_book-Grows i _ s (rw e (omega arith)))
        (append_event-Grows _ device_id _ _ now _)

  tombstone_books-Grows :
      (ids : List String) (m : ℕ) (device_id : String) (now : Time) (s : MemorySyncStore Raw)
      → Grows s (tombstone_books ids m device_id now s).1
  unfolding tombstone_books
  tombstone_books-Grows [] m device_id now s = Grows-refl s
  tombstone_books-Grows (i ∷ ids) m device_id now s =
      Grows-trans (tombstone_row-Grows (lookup i s.books) i device_id now s refl)
        (tombstone_books-Grows ids _ device_id now _)

  restore_items-Grows :
      (codec : Codec Raw) (items : List (BookSnapshotItem Raw)) (current : List String) (m : ℕ)
      (device_id : String) (now : Time) (s : MemorySyncStore Raw)
      → Grows s (restore_items codec items current m device_id now s).2
  unfolding restore_items
  restore_items-Grows codec [] current m device_id now s = Grows-refl s
  restore_items-Grows codec (item ∷ items) current m device_id now s =
      Grows-trans (write_book_row-Grows _ item.uuid _ device_id now s)
        (restore_items-Grows codec items _ _ device_id now _)

  same-Grows :
      (s t : MemorySyncStore Raw)
      → t.events ≡ s.events
      → t.books ≡ s.books
      → t.entities ≡ s.entities
      → Grows s t
  same-Grows s t e b n = record {
    log = ([], e ∙ sym (append-nil s.events));
    books = λ id. rw b (omega arith);
    entities = λ k. rw n (omega arith);
  }

  put_conflicts-Grows :
      (r : Result (List (MemoryConflict Raw))) (s : MemorySyncStore Raw)
      → Grows s (put_conflicts r s).1
  unfolding put_conflicts
  put_conflicts-Grows (ok ds) s = same-Grows s _ refl refl refl
  put_conflicts-Grows (err e) s = Grows-refl s

  Step-Grows : {s t : MemorySyncStore Raw} → Step s t → Grows s t
  unfolding apply_change force_upsert apply_book_change force_upsert_book restore_parsed
      insert_snapshot update_cursor mark_resolved
  Step-Grows (entity_changed c d now s other) =
      if_rule (GrowsFrom s) (is_some (lookup c.change_id s.change_ids)) (λ _. Grows-refl s)
        (λ _. apply_to_entity-Grows _ c d now s refl)
  Step-Grows (entity_forced t i p d now s other) =
      Grows-trans
        (put_entity-Grows (entity_key t i) (forced_row p (lookup (entity_key t i) s.entities)) s
          (unfold forced_row in ground arith))
        (append_event-Grows _ d _ _ now _)
  Step-Grows (book_changed c src d now s book) =
      if_rule (GrowsFrom s) (is_some (lookup c.change_id s.change_ids)) (λ _. Grows-refl s)
        (λ _. apply_to_book-Grows _ c d now s refl)
  Step-Grows (book_forced i p d now s) = write_book_row-Grows _ i p d now s
  Step-Grows (restored codec order items d now s) =
      Grows-trans (restore_items-Grows codec items (live_keys s.books) 0 d now s)
        (tombstone_books-Grows _ _ d now _)
  Step-Grows (snapshot_recorded o t p now s) = same-Grows s _ refl refl refl
  Step-Grows (cursor_moved d last s) = same-Grows s _ refl refl refl
  Step-Grows (conflict_closed id d s) = put_conflicts-Grows (mark_among id s.conflicts) s

  pub Reach-Grows : {s t : MemorySyncStore Raw} → Reach s t → Grows s t
  Reach-Grows {s} here = Grows-refl s
  Reach-Grows (next r st) = Grows-trans (Reach-Grows r) (Step-Grows st)
