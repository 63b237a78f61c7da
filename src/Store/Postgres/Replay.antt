-- ===== src/Store/Postgres/Replay.antt =====
-- What a client makes of the events of the PostgreSQL stores: the columns of each book, where an
-- event of progress moves the page of a book that the client has.
use telebook_server.Prelude.{
  ℕ, String, ◌≡◌, refl, true, false, Option, none, some, List, [], ◌∷◌, ◌++◌, lookup, insert,
  lookup-insert, ◌&&◌, arith, eq_iff, ◌==◌, if◌then◌else◌,
}
use telebook_server.Prelude.Int.{ℤ}
use telebook_server.Model.Book.{RawMessage, Time, Codec}
use telebook_server.Model.Sync.{Change, SyncEvent, op_delete, op_progress, entity_book}
use telebook_server.Store.Memory.{EventStatus}
use telebook_server.Store.Memory.Replay.{delivered, delivered-append}
use telebook_server.Store.Postgres.{SyncTables, BookRow, BookData}
use telebook_server.Store.Postgres.Rows.{put_event, parse_book_payload, payload_data}

module _ {Raw : Type 0} where
  -- The columns of a book that is there and not deleted.
  unfoldable pub live_data : Option (BookRow Raw) → Option (BookData Raw)
  live_data none = none
  live_data (some row) = if row.deleted then none else some row.data_of

  unfoldable pub with_page : ℤ → Option (BookData Raw) → Option (BookData Raw)
  with_page page none = none
  with_page page (some d) = some (record d { current_page = page })

module _ {Raw : Type 0} (codec : Codec Raw) where
  -- A change of a book at a client that has `v`.
  unfoldable pub client_change :
      String → RawMessage Raw → Option (BookData Raw) → Option (BookData Raw)
  unfolding with_page
  client_change op payload v =
      if op == op_delete
      then none
      else if op == op_progress
      then with_page (parse_book_payload codec payload).current_page v
      else payload_data codec payload

  unfoldable pub client_event :
      String → Option (BookData Raw) → SyncEvent Raw → Option (BookData Raw)
  client_event id v e =
      if e.entity_type == entity_book && e.entity_id == id
      then client_change e.op e.payload v
      else v

  unfoldable pub client :
      String → Option (BookData Raw) → List (SyncEvent Raw) → Option (BookData Raw)
  unfolding client_event
  client id v [] = v
  client id v (e ∷ es) = client id (client_event id v e) es

  client-append :
      (id : String) (v : Option (BookData Raw)) (xs ys : List (SyncEvent Raw))
      → client id v (xs ++ ys) ≡ client id (client id v xs) ys
  unfolding client
  client-append id v [] ys = refl
  client-append id v (x ∷ xs) ys = client-append id (client_event id v x) xs ys

  -- A client that applied every event that is sent has the columns of the books.
  pub record Mirrored (t : SyncTables Raw) : Type 0 where
    pub at_book :
        (id : String)
        → client id none (delivered t.event_tables.sync_events)
          ≡ live_data (lookup id t.current_book)

  -- The rows of the books and of the events decide.
  pub same_rows-Mirrored :
      (s t : SyncTables Raw)
      → t.event_tables.sync_events ≡ s.event_tables.sync_events
      → t.current_book ≡ s.current_book
      → Mirrored s
      → Mirrored t
  same_rows-Mirrored s t e b v = record { at_book = λ id. rw (e, b) (v.at_book id) }

  -- A row and its event.
  pub put_event-Mirrored :
      (c : Change Raw) (rev : ℕ) (device_id : String) (now : Time) (t : SyncTables Raw)
      (row : BookRow Raw)
      → (c.entity_type == entity_book) ≡ true
      → client_change c.op c.payload (live_data (lookup c.entity_id t.current_book))
        ≡ live_data (some row)
      → Mirrored t
      → Mirrored
          (put_event c rev device_id EventStatus.done now
            (record t { current_book = insert c.entity_id row t.current_book })).1
  unfolding put_event delivered client
  put_event-Mirrored c rev device_id now t row book e v = record {
    at_book = λ id.
        rw (delivered-append, client-append, lookup-insert, v.at_book id)
          (ground (arith, eq_iff c.entity_id id));
  }

  -- An event of another entity, and one of a conflict.
  pub put_other-Mirrored :
      (c : Change Raw) (rev : ℕ) (device_id : String) (now : Time) (t : SyncTables Raw)
      → (c.entity_type == entity_book) ≡ false
      → Mirrored t
      → Mirrored (put_event c rev device_id EventStatus.done now t).1
  unfolding put_event delivered client
  put_other-Mirrored c rev device_id now t other v = record {
    at_book = λ id. rw (delivered-append, client-append, v.at_book id) (ground arith);
  }

  pub put_conflict_event-Mirrored :
      (c : Change Raw) (rev : ℕ) (device_id : String) (now : Time) (t : SyncTables Raw)
      → Mirrored t
      → Mirrored (put_event c rev device_id EventStatus.conflict now t).1
  unfolding put_event delivered client
  put_conflict_event-Mirrored c rev device_id now t v = record {
    at_book = λ id. rw (delivered-append, client-append, v.at_book id) (ground arith);
  }
