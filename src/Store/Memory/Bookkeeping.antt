-- ===== src/Store/Memory/Bookkeeping.antt =====
-- The methods for the history, the conflicts and the cursors, and the well-formedness of the memory
-- store.
use telebook_server.Prelude.{
  ℕ, suc, String, refl, List, [], ◌∷◌, Numbered, Numbered-append, if_rule, eqb,
}
use telebook_server.Model.Errors.{Result, ok, err, Holds, Holds-map_ok}
use telebook_server.Model.Book.{RawMessage, Time}
use telebook_server.Store.Memory.{MemorySyncStore, MemoryConflict}
use telebook_server.Store.Memory.Reads.{insert_snapshot, update_cursor}
use telebook_server.Store.Memory.Conflicts.{mark_resolved, mark_among, put_conflicts, is_open}
use telebook_server.Store.Memory.Invariant.{WellFormed, conflict_number}

module _ {Raw : Type 0} where
  pub insert_snapshot-WellFormed :
      (op_type tag : String) (snapshot : RawMessage Raw) (now : Time) (s : MemorySyncStore Raw)
      → WellFormed s
      → WellFormed (insert_snapshot op_type tag snapshot now s).1
  unfolding insert_snapshot
  insert_snapshot-WellFormed op_type tag snapshot now s w = record {
    events = w.events;
    conflicts = w.conflicts;
    history = Numbered-append (λ h. h.id) 0 s.history s.next_history_id _ w.history refl;
    known = w.known;
    entities = w.entities;
    books = w.books;
    distinct = w.distinct;
  }

  mark_among-Numbered :
      (id : ℕ) (cs : List (MemoryConflict Raw)) (lo hi : ℕ)
      → Numbered conflict_number lo cs hi
      → Holds (λ ds. Numbered conflict_number lo ds hi) (mark_among id cs)
  unfolding mark_among
  mark_among-Numbered id [] lo hi h = tt
  mark_among-Numbered id (c ∷ cs) lo hi h =
      if_rule (Holds Fits) (eqb c.record_of.id id)
        (λ _. if_rule (Holds Fits) (is_open c.record_of.status) (λ _. h) (λ _. tt))
        λ _.
          Holds-map_ok Rest Fits (λ ds. c ∷ ds) (mark_among id cs) (λ ds k. (h.0, k))
            (mark_among-Numbered id cs (suc lo) hi h.1)
    where
      Fits : List (MemoryConflict Raw) → Type 0
      Fits ds = Numbered conflict_number lo ds hi

      Rest : List (MemoryConflict Raw) → Type 0
      Rest ds = Numbered conflict_number (suc lo) ds hi

  put_conflicts-WellFormed :
      (r : Result (List (MemoryConflict Raw))) (s : MemorySyncStore Raw)
      → WellFormed s
      → Holds (λ ds. Numbered conflict_number 0 ds s.next_conflict_id) r
      → WellFormed (put_conflicts r s).1
  unfolding put_conflicts
  put_conflicts-WellFormed (err e) s w h = w
  put_conflicts-WellFormed (ok ds) s w h = record {
    events = w.events;
    conflicts = h;
    history = w.history;
    known = w.known;
    entities = w.entities;
    books = w.books;
    distinct = w.distinct;
  }

  pub mark_resolved-WellFormed :
      (id : ℕ) (device_id : String) (s : MemorySyncStore Raw)
      → WellFormed s
      → WellFormed (mark_resolved id device_id s).1
  unfolding mark_resolved
  mark_resolved-WellFormed id device_id s w =
      put_conflicts-WellFormed (mark_among id s.conflicts) s w
        (mark_among-Numbered id s.conflicts 0 s.next_conflict_id w.conflicts)

  pub update_cursor-WellFormed :
      (device_id : String) (last : ℕ) (s : MemorySyncStore Raw)
      → WellFormed s
      → WellFormed (update_cursor device_id last s)
  unfolding update_cursor
  update_cursor-WellFormed device_id last s w = record {
    events = w.events;
    conflicts = w.conflicts;
    history = w.history;
    known = w.known;
    entities = w.entities;
    books = w.books;
    distinct = w.distinct;
  }
