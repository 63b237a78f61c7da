-- ===== src/Store/Memory/Invariant.antt =====
-- The well-formedness of the memory store, and the helpers that write an event or a conflict.
use telebook_server.Prelude.{
  Distinct, ℕ, suc, ◌≤◌, String, ◌≡◌, refl, true, List, [], ◌∷◌, GoMap, lookup, insert,
  lookup-insert, is_some, All, All-append, Numbered, Numbered-append, arith, eq_iff,
}
use telebook_server.Model.Book.{RawMessage, Time}
use telebook_server.Model.Sync.{Change}
use telebook_server.Store.Memory.{
  MemorySyncStore, MemoryEntity, MemoryEvent, MemoryConflict, EventStatus, new_memory_sync_store,
}
use telebook_server.Store.Memory.Log.{append_event, append_conflict}

module _ {Raw : Type 0} where
  abbrev pub event_number : MemoryEvent Raw → ℕ
  event_number e = e.event.id

  abbrev pub conflict_number : MemoryConflict Raw → ℕ
  conflict_number c = c.record_of.id

  -- A change id that the log holds is known.
  abbrev pub IsKnown : GoMap ℕ → MemoryEvent Raw → Type 0
  IsKnown ids e = is_some (lookup e.change_id ids) ≡ true

  abbrev pub IsPositive : (String × MemoryEntity Raw) → Type 0
  IsPositive e = 1 ≤ e.1.revision

  -- Events, conflicts and history are numbered from 1 without a gap, each event's change id is
  -- known, no row has revision 0, and no book
  -- has two rows.
  pub record WellFormed (s : MemorySyncStore Raw) : Type 0 where
    pub events : Numbered event_number 0 s.events s.next_event_id
    pub conflicts : Numbered conflict_number 0 s.conflicts s.next_conflict_id
    pub history : Numbered (λ h. h.id) 0 s.history s.next_history_id
    pub known : All (IsKnown s.change_ids) s.events
    pub entities : All IsPositive s.entities
    pub books : All IsPositive s.books
    pub distinct : Distinct s.books

  pub new-WellFormed : WellFormed (new_memory_sync_store {Raw = Raw})
  unfolding new_memory_sync_store
  new-WellFormed = record {
    events = refl;
    conflicts = refl;
    history = refl;
    known = tt;
    entities = tt;
    books = tt;
    distinct = tt;
  }

  pub insert-IsPositive :
      (k : String) (row : MemoryEntity Raw) (m : GoMap (MemoryEntity Raw))
      → 1 ≤ row.revision
      → All IsPositive m
      → All IsPositive (insert k row m)
  unfolding insert
  insert-IsPositive k row [] p h = (p, tt)
  insert-IsPositive k row ((j, w) ∷ m) p h = ground (arith, insert-IsPositive k row m p h.1)

  IsKnown-insert :
      (id : String) (n : ℕ) (ids : GoMap ℕ) (es : List (MemoryEvent Raw))
      → All (IsKnown ids) es
      → All (IsKnown (insert id n ids)) es
  IsKnown-insert id n ids [] h = tt
  IsKnown-insert id n ids (e ∷ es) h =
      (ground (arith, lookup-insert id e.change_id n ids), IsKnown-insert id n ids es h.1)

  pub append_event-WellFormed :
      (c : Change Raw) (device_id : String) (revision : ℕ) (status : EventStatus) (now : Time)
      (s : MemorySyncStore Raw)
      → WellFormed s
      → WellFormed (append_event c device_id revision status now s).1
  unfolding append_event
  append_event-WellFormed c device_id revision status now s w = record {
    events = Numbered-append event_number 0 s.events s.next_event_id _ w.events refl;
    conflicts = w.conflicts;
    history = w.history;
    known = All-append _ s.events _ (IsKnown-insert c.change_id _ s.change_ids s.events w.known) (
      ground (
        arith,
        lookup-insert c.change_id c.change_id (suc s.next_event_id) s.change_ids,
        eq_iff c.change_id c.change_id,
      ),
      tt,
    );
    entities = w.entities;
    books = w.books;
    distinct = w.distinct;
  }

  pub append_conflict-WellFormed :
      (c : Change Raw) (device_id : String) (rev : ℕ) (p : RawMessage Raw) (now : Time)
      (s : MemorySyncStore Raw)
      → WellFormed s
      → WellFormed (append_conflict c device_id rev p now s).1
  unfolding append_conflict
  append_conflict-WellFormed c device_id rev p now s w =
      let v = append_event-WellFormed c device_id rev EventStatus.conflict now s w in
      record {
        events = v.events;
        conflicts =
            Numbered-append conflict_number 0 s.conflicts s.next_conflict_id _ w.conflicts refl;
        history = v.history;
        known = v.known;
        entities = v.entities;
        books = v.books;
        distinct = v.distinct;
      }
