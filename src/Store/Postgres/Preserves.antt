-- ===== src/Store/Postgres/Preserves.antt =====
-- The statements that the PostgreSQL stores share, and the soundness of the tables.
use telebook_server.Prelude.{
  ℕ, ◌≤◌, ◌<◌, String, ◌≡◌, refl, Option, none, some, List, [], ◌∷◌, ◌++◌, All, All-append, All-map,
  Ascending, Ascending-append, arith,
}
use telebook_server.Model.Errors.{Error, ok, err}
use telebook_server.Model.Book.{Time}
use telebook_server.Model.Sync.{Change, SyncEvent}
use telebook_server.Store.Memory.{MemoryEvent, EventStatus}
use telebook_server.Store.Postgres.{SyncTables, BookRow, BookData, ConflictRow}
use telebook_server.Store.Postgres.Rows.{
  put_event, put_conflict, log_accepted, log_refused, insert_event, insert_conflict, write_row,
  written_row,
}
use telebook_server.Store.Postgres.Conflicts.{find_event}
use telebook_server.Store.Postgres.Soundness.{
  Sound, Later, IsSafe, Refers, event_number, bind-IsSafe, reading-IsSafe, put_row-IsSafe,
}

module _ {Raw : Type 0} where
  pub find_event-append :
      (id : ℕ) (xs ys : List (MemoryEvent Raw)) (e : SyncEvent Raw)
      → find_event id xs ≡ some e
      → find_event id (xs ++ ys) ≡ some e
  unfolding find_event
  find_event-append id [] ys e h = absurd (cc h)
  find_event-append id (x ∷ xs) ys e h = ground (arith, find_event-append id xs ys e)

  find_event-last :
      (lo : ℕ) (xs : List (MemoryEvent Raw)) (hi : ℕ) (x : MemoryEvent Raw)
      → Ascending event_number lo xs hi
      → hi < x.event.id
      → find_event x.event.id (xs ++ x ∷ []) ≡ some x.event
  unfolding find_event
  find_event-last lo [] hi x a h = ground arith
  find_event-last lo (y ∷ xs) hi x a h =
      ground (arith, find_event-last y.event.id xs hi x a.1 h, Ascending-bound y.event.id xs hi a.1)
    where
      Ascending-bound :
          (lo : ℕ) (xs : List (MemoryEvent Raw)) (hi : ℕ)
          → Ascending event_number lo xs hi
          → lo ≤ hi
      Ascending-bound lo [] hi a = a
      Ascending-bound lo (x ∷ xs) hi a = omega (arith, Ascending-bound x.event.id xs hi a.1)

  Refers-append :
      (xs ys : List (MemoryEvent Raw)) (cs : List ConflictRow)
      → All (Refers xs) cs
      → All (Refers (xs ++ ys)) cs
  Refers-append xs ys cs h =
      All-map (Refers xs) (Refers (xs ++ ys)) cs
        (λ c (e, found, t, i). (e, find_event-append c.event_id xs ys e found, t, i)) h

  put_event-Later :
      (c : Change Raw) (rev : ℕ) (device_id : String) (status : EventStatus) (now : Time)
      (t : SyncTables Raw)
      → Sound t
      → Later t (put_event c rev device_id status now t).1
  unfolding put_event
  put_event-Later c rev device_id status now t w = record {
    sound = record {
      events =
          Ascending-append event_number 0 t.event_seq t.event_tables.sync_events _ (omega arith)
            w.events;
      conflicts = w.conflicts;
      history = w.history;
      refers = Refers-append t.event_tables.sync_events _ t.conflicts w.refers;
      entities = w.entities;
      books = w.books;
      distinct = w.distinct;
    };
    event_seq = omega arith;
    conflict_seq = omega arith;
    history_seq = omega arith;
  }

  pub insert_event-IsSafe :
      (c : Change Raw) (rev : ℕ) (device_id : String) (now : Time)
      → IsSafe (insert_event c rev device_id now)
  unfolding insert_event
  insert_event-IsSafe c rev device_id now = record {
    at = λ t w. put_event-Later c rev device_id EventStatus.done now t w;
  }

  pub log_accepted-IsSafe :
      (c : Change Raw) (rev : ℕ) (device_id : String) (now : Time)
      → IsSafe (log_accepted c rev device_id now)
  unfolding log_accepted
  log_accepted-IsSafe c rev device_id now =
      bind-IsSafe _ _ (insert_event-IsSafe c rev device_id now) λ id. reading-IsSafe λ t. ok _

  pub log_refused-IsSafe :
      (c : Change Raw) (rev : ℕ) (device_id : String) (now : Time)
      → IsSafe (log_refused c rev device_id now)
  unfolding log_refused insert_conflict put_conflict put_event
  log_refused-IsSafe c rev device_id now = record {
    at = λ t w.
        let v = (put_event-Later c rev device_id EventStatus.conflict now t w).sound in
        record {
          sound = record {
            events = v.events;
            conflicts =
                Ascending-append (λ k. k.id) 0 t.conflict_seq t.conflicts _ (omega arith)
                  w.conflicts;
            history = w.history;
            refers = All-append _ t.conflicts _ v.refers (
              (
                _,
                find_event-last 0 t.event_tables.sync_events t.event_seq _ w.events (omega arith),
                refl,
                refl,
              ),
              tt,
            );
            entities = w.entities;
            books = w.books;
            distinct = w.distinct;
          };
          event_seq = omega arith;
          conflict_seq = omega arith;
          history_seq = omega arith;
        };
  }

  pub write_row-IsSafe :
      (id : String) (d : Option (BookData Raw)) (old : Option (BookRow Raw))
      → IsSafe (write_row id d old)
  unfolding write_row written_row
  write_row-IsSafe id none old = reading-IsSafe (λ t. err Error.database_error)
  write_row-IsSafe id (some d) none = put_row-IsSafe id _ (omega arith)
  write_row-IsSafe id (some d) (some row) = put_row-IsSafe id _ (omega arith)
