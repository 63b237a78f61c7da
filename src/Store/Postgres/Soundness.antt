-- ===== src/Store/Postgres/Soundness.antt =====
-- The well-formedness of the tables: what the sequences and the foreign key of `conflicts` give.
use telebook_server.Prelude.{
  ℕ, ◌≤◌, String, ◌≡◌, refl, Bool, true, false, some, List, [], ◌∷◌, GoMap, insert, insert-Distinct,
  Distinct, All, Ascending, Ascending-raise, arith, if◌then◌else◌,
}
use telebook_server.Model.Errors.{Result, ok, err}
use telebook_server.Model.Action.{Action, continue, ◌>>=◌}
use telebook_server.Model.Sync.{SyncEvent}
use telebook_server.Store.Memory.{MemoryEvent}
use telebook_server.Store.Postgres.{
  SyncTables, EntityRow, BookRow, ConflictRow, transaction, settle, rolled_back,
}
use telebook_server.Store.Postgres.Rows.{put_row}
use telebook_server.Store.Postgres.Entities.{put_entity, save_entity}
use telebook_server.Store.Postgres.Conflicts.{find_event}

module _ {Raw : Type 0} where
  abbrev pub event_number : MemoryEvent Raw → ℕ
  event_number e = e.event.id

  abbrev pub IsPositive : (String × BookRow Raw) → Type 0
  IsPositive e = 1 ≤ e.1.revision

  abbrev pub IsPositiveEntity : EntityRow Raw → Type 0
  IsPositiveEntity row = 1 ≤ row.revision

  -- The foreign key: the event is there, and is one of the conflict's entity.
  abbrev pub Refers : List (MemoryEvent Raw) → ConflictRow → Type 0
  Refers es c =
      (e : SyncEvent Raw) × (find_event c.event_id es ≡ some e)
      × (e.entity_type ≡ c.entity_type)
      × (e.entity_id ≡ c.entity_id)

  -- Ids rise up to the sequence of the table, each conflict has its event, no row has the revision
  -- 0, and no book has two rows.
  pub record Sound (t : SyncTables Raw) : Type 0 where
    pub events : Ascending event_number 0 t.event_tables.sync_events t.event_seq
    pub conflicts : Ascending (λ c. c.id) 0 t.conflicts t.conflict_seq
    pub history : Ascending (λ h. h.id) 0 t.book_history t.history_seq
    pub refers : All (Refers t.event_tables.sync_events) t.conflicts
    pub entities : All IsPositiveEntity t.entities
    pub books : All IsPositive t.current_book
    pub distinct : Distinct t.current_book

  -- No sequence goes back.
  pub record Later (s t : SyncTables Raw) : Type 0 where
    pub sound : Sound t
    pub event_seq : s.event_seq ≤ t.event_seq
    pub conflict_seq : s.conflict_seq ≤ t.conflict_seq
    pub history_seq : s.history_seq ≤ t.history_seq

  pub Later-refl : (t : SyncTables Raw) → Sound t → Later t t
  Later-refl t w = record {
    sound = w;
    event_seq = omega arith;
    conflict_seq = omega arith;
    history_seq = omega arith;
  }

  Later-trans : (s t u : SyncTables Raw) → Later s t → Later t u → Later s u
  Later-trans s t u h k = record {
    sound = k.sound;
    event_seq = omega (arith, h.event_seq, k.event_seq);
    conflict_seq = omega (arith, h.conflict_seq, k.conflict_seq);
    history_seq = omega (arith, h.history_seq, k.history_seq);
  }

  -- The action keeps the tables sound.
  pub record IsSafe {A : Type 0} (m : Action (SyncTables Raw) A) : Type 0 where
    pub at : (t : SyncTables Raw) → Sound t → Later t (m t).1

  settle-Later :
      {A : Type 0} (s : SyncTables Raw) (r : Result A × SyncTables Raw)
      → Sound s
      → Later s (r.1)
      → Later s (settle s r).1
  unfolding settle rolled_back
  settle-Later s (ok a, t) w h = h
  settle-Later s (err e, t) w h = record {
    sound = record {
      events = Ascending-raise event_number 0 _ _ s.event_tables.sync_events h.event_seq w.events;
      conflicts = Ascending-raise (λ c. c.id) 0 _ _ s.conflicts h.conflict_seq w.conflicts;
      history = Ascending-raise (λ h. h.id) 0 _ _ s.book_history h.history_seq w.history;
      refers = w.refers;
      entities = w.entities;
      books = w.books;
      distinct = w.distinct;
    };
    event_seq = h.event_seq;
    conflict_seq = h.conflict_seq;
    history_seq = h.history_seq;
  }

  pub transaction-IsSafe :
      {A : Type 0} (m : Action (SyncTables Raw) A) → IsSafe m → IsSafe (transaction m)
  unfolding transaction
  transaction-IsSafe m h = record { at = λ t w. settle-Later t (m t) w (h.at t w) }

  continue-Later :
      {A B : Type 0} (s : SyncTables Raw) (r : Result A × SyncTables Raw)
      (f : A → Action (SyncTables Raw) B)
      → Later s (r.1)
      → ((a : A) → IsSafe (f a))
      → Later s (continue (r.0) f (r.1)).1
  continue-Later s (ok a, t) f h g = Later-trans s t _ h ((g a).at t h.sound)
  continue-Later s (err e, t) f h g = h

  pub bind-IsSafe :
      {A B : Type 0} (m : Action (SyncTables Raw) A) (f : A → Action (SyncTables Raw) B)
      → IsSafe m
      → ((a : A) → IsSafe (f a))
      → IsSafe (m >>= f)
  bind-IsSafe m f h g = record { at = λ t w. continue-Later t (m t) f (h.at t w) g }

  -- Only the answer depends on the tables.
  pub reading-IsSafe : {A : Type 0} (f : SyncTables Raw → Result A) → IsSafe (λ t. (f t, t))
  reading-IsSafe f = record { at = Later-refl }

  pub if-IsSafe :
      {A : Type 0} (b : Bool) (m n : Action (SyncTables Raw) A)
      → (b ≡ true → IsSafe m)
      → (b ≡ false → IsSafe n)
      → IsSafe (if b then m else n)
  if-IsSafe true m n h k = h refl
  if-IsSafe false m n h k = k refl

  insert-IsPositive :
      (id : String) (row : BookRow Raw) (m : GoMap (BookRow Raw))
      → 1 ≤ row.revision
      → All IsPositive m
      → All IsPositive (insert id row m)
  unfolding insert
  insert-IsPositive id row [] p h = (p, tt)
  insert-IsPositive id row ((j, w) ∷ m) p h = ground (arith, insert-IsPositive id row m p h.1)

  pub put_row-IsSafe :
      (id : String) (row : BookRow Raw) → 1 ≤ row.revision → IsSafe (put_row id row)
  put_row-IsSafe id row p = record {
    at = λ t w. record {
      sound = record {
        events = w.events;
        conflicts = w.conflicts;
        history = w.history;
        refers = w.refers;
        entities = w.entities;
        books = insert-IsPositive id row t.current_book p w.books;
        distinct = insert-Distinct id row t.current_book w.distinct;
      };
      event_seq = omega arith;
      conflict_seq = omega arith;
      history_seq = omega arith;
    };
  }

  put_entity-IsPositive :
      (row : EntityRow Raw) (rows : List (EntityRow Raw))
      → 1 ≤ row.revision
      → All IsPositiveEntity rows
      → All IsPositiveEntity (put_entity row rows)
  unfolding put_entity
  put_entity-IsPositive row [] p h = (p, tt)
  put_entity-IsPositive row (r ∷ rows) p h = ground (arith, put_entity-IsPositive row rows p h.1)

  pub save_entity-IsSafe : (row : EntityRow Raw) → 1 ≤ row.revision → IsSafe (save_entity row)
  save_entity-IsSafe row p = record {
    at = λ t w. record {
      sound = record {
        events = w.events;
        conflicts = w.conflicts;
        history = w.history;
        refers = w.refers;
        entities = put_entity-IsPositive row t.entities p w.entities;
        books = w.books;
        distinct = w.distinct;
      };
      event_seq = omega arith;
      conflict_seq = omega arith;
      history_seq = omega arith;
    };
  }
