-- ===== src/Store/Postgres/Agreement.antt =====
-- `ApplyBookChange` of the PostgreSQL store against that of the memory store.
use telebook_server.Prelude.{
  ℕ, String, ◌≡◌, refl, Bool, false, ◌||◌, Option, none, some, List, [], ◌∷◌, ◌++◌, lookup, insert,
  lookup-insert, is_some, arith, ◌==◌, Bool-cases, inl, inr,
}
use telebook_server.Prelude.Int.{eq_pos}
use telebook_server.Model.Errors.{Result, ok, err}
use telebook_server.Model.Book.{RawMessage, Time, Codec}
use telebook_server.Model.Sync.{Change, ChangeOutcome, Reason, op_delete, op_progress}
use telebook_server.Store.Memory.{MemorySyncStore, MemoryBook, MemoryEvent, EventStatus}
use telebook_server.Store.Memory.Log.{append_event, append_conflict}
use telebook_server.Store.Memory.Books
use telebook_server.Store.Memory.Books.{apply_to_book, changed_book}
use telebook_server.Store.Postgres.{SyncTables, BookRow, BookData, transaction, settle}
use telebook_server.Store.Postgres.Rows.{
  change_exists, put_event, log_accepted, log_refused, insert_event, insert_conflict, put_conflict,
  payload_data, written_row, write_row,
}
use telebook_server.Store.Postgres.Books.{
  apply_book_change, book_body, decide_book, change_book, change_row, write_book_data, buried_row,
  book_event,
}

module _ {Raw : Type 0} where
  pub change_exists-append :
      (j : String) (xs ys : List (MemoryEvent Raw))
      → change_exists j (xs ++ ys) ≡ (change_exists j xs || change_exists j ys)
  unfolding change_exists
  change_exists-append j [] ys = refl
  change_exists-append j (x ∷ xs) ys = ground (arith, change_exists-append j xs ys)

-- What a device learns of its change.
abbrev pub verdict : ChangeOutcome → Bool × ℕ × Reason
verdict o = (o.accepted, o.revision, o.reason)

module _ {Raw : Type 0} (codec : Codec Raw) where
  -- A row has the revision of the memory store's book, and the columns that its payload says.
  abbrev pub RowAgrees : Option (BookRow Raw) → Option (MemoryBook Raw) → Type 0
  RowAgrees none none = Unit
  RowAgrees (some row) (some book) =
      (row.revision ≡ book.revision)
      × (row.deleted ≡ book.deleted)
      × (payload_data codec book.payload ≡ some row.data_of)
  RowAgrees none (some book) = ⊥
  RowAgrees (some row) none = ⊥

  -- Tables and memory store have the same books and know the same changes.
  pub record Agrees (t : SyncTables Raw) (s : MemorySyncStore Raw) : Type 0 where
    pub row : (id : String) → RowAgrees (lookup id t.current_book) (lookup id s.books)
    pub known :
        (j : String) → change_exists j t.event_tables.sync_events ≡ is_some (lookup j s.change_ids)

  -- An update, whose payload fills the columns of a row, or a deletion.
  pub record IsPlain (c : Change Raw) : Type 0 where
    pub kept : (c.op == op_progress) ≡ false
    pub writable :
        (c.op == op_delete) ≡ false → (d : BookData Raw) × (payload_data codec c.payload ≡ some d)

  -- The event of a change, under the change id that both stores then know.
  put_event-known :
      (c d : Change Raw) (rev rev' : ℕ) (device_id : String) (status : EventStatus) (now : Time)
      (t : SyncTables Raw) (s : MemorySyncStore Raw) (j : String)
      → d.change_id ≡ c.change_id
      → Agrees t s
      → change_exists j (put_event d rev device_id status now t).1.event_tables.sync_events
        ≡ is_some (lookup j (append_event c device_id rev' status now s).1.change_ids)
  unfolding put_event append_event
  put_event-known c d rev rev' device_id status now t s j same a =
      rw (change_exists-append, lookup-insert, a.known j, same)
        (unfold change_exists in ground arith)

  -- A row in both stores.
  insert-RowAgrees :
      (id j : String) (row : BookRow Raw) (book : MemoryBook Raw) (t : SyncTables Raw)
      (s : MemorySyncStore Raw)
      → RowAgrees (some row) (some book)
      → Agrees t s
      → RowAgrees (lookup j (insert id row t.current_book)) (lookup j (insert id book s.books))
  insert-RowAgrees id j row book t s h a = elim (Bool-cases (id == j)) [
    | inl e ↦ rw (lookup-insert id j row, lookup-insert id j book, e) h
    | inr e ↦ rw (lookup-insert id j row, lookup-insert id j book, e) (a.row j)
  ]

  -- A call of the PostgreSQL store that succeeds, tells the device what the memory store tells it,
  -- and leaves the same books.
  pub record Simulates (r : Result ChangeOutcome × SyncTables Raw)
      (m : ChangeOutcome × MemorySyncStore Raw) : Type 0 where
    pub outcome : ChangeOutcome
    pub succeeds : r.0 ≡ ok outcome
    pub tells : verdict outcome ≡ verdict (m.0)
    pub agrees : Agrees (r.1) (m.1)

  logged-Simulates :
      (c : Change Raw) (rev : ℕ) (device_id : String) (now : Time) (row : BookRow Raw)
      (book : MemoryBook Raw) (t : SyncTables Raw) (s : MemorySyncStore Raw)
      → RowAgrees (some row) (some book)
      → Agrees t s
      → Simulates
          (log_accepted
            (book_event c)
            rev
            device_id
            now
            (record t { current_book = insert c.entity_id row t.current_book }))
          (append_event c device_id rev EventStatus.done now
            (record s { books = insert c.entity_id book s.books }))
  unfolding log_accepted insert_event put_event append_event
  logged-Simulates c rev device_id now row book t s h a = record {
    outcome = _;
    succeeds = refl;
    tells = refl;
    agrees = record {
      row = λ j. insert-RowAgrees c.entity_id j row book t s h a;
      known =
          λ j. put_event-known c (book_event c) rev rev device_id EventStatus.done now t s j refl a;
    };
  }

  refused-Simulates :
      (c : Change Raw) (rev rev' : ℕ) (device_id : String) (now : Time) (p : RawMessage Raw)
      (t : SyncTables Raw) (s : MemorySyncStore Raw)
      → Agrees t s
      → Simulates (log_refused c rev device_id now t) (append_conflict c device_id rev' p now s)
  unfolding log_refused insert_conflict put_conflict put_event append_conflict append_event
  refused-Simulates c rev rev' device_id now p t s a = record {
    outcome = _;
    succeeds = refl;
    tells = refl;
    agrees = record {
      row = λ j. a.row j;
      known = λ j. put_event-known c c rev rev' device_id EventStatus.conflict now t s j refl a;
    };
  }

  -- Nothing was written.
  unchanged-Simulates :
      (o p : ChangeOutcome) (t : SyncTables Raw) (s : MemorySyncStore Raw)
      → verdict o ≡ verdict p
      → Agrees t s
      → Simulates (ok o, t) (p, s)
  unchanged-Simulates o p t s e a = record { outcome = o; succeeds = refl; tells = e; agrees = a }

  -- The row that was found is missing in both stores.
  new_book-Simulates :
      (c : Change Raw) (device_id : String) (now : Time) (t : SyncTables Raw)
      (s : MemorySyncStore Raw)
      → IsPlain c
      → Agrees t s
      → Simulates (change_book codec none c device_id now t) (apply_to_book none c device_id now s)
  unfolding change_book apply_to_book write_book_data write_row written_row
  new_book-Simulates c device_id now t s plain a = elim (Bool-cases (c.op == op_delete)) [
    | inl e ↦ rw e (unchanged-Simulates _ _ t s refl a)
    | inr e ↦ elim (Bool-cases (eq_pos c.base_revision 0)) [
      | inl z ↦
          let (d, p) = plain.writable e in
          rw (e, z, p) (logged-Simulates c 1 device_id now _ _ t s (refl, refl, p) a)
      | inr z ↦ rw (e, z) (unchanged-Simulates _ _ t s refl a)
    ]
  ]

  found_book-Simulates :
      (row : BookRow Raw) (book : MemoryBook Raw) (c : Change Raw) (device_id : String) (now : Time)
      (t : SyncTables Raw) (s : MemorySyncStore Raw)
      → RowAgrees (some row) (some book)
      → IsPlain c
      → Agrees t s
      → Simulates
          (change_book codec (some row) c device_id now t)
          (apply_to_book (some book) c device_id now s)
  unfolding change_book change_row apply_to_book write_book_data write_row written_row changed_book
      buried_row
  found_book-Simulates row book c device_id now t s (same, dead, cols) plain a =
      elim (Bool-cases (eq_pos c.base_revision book.revision)) [
        | inl z ↦ elim (Bool-cases (c.op == op_delete)) [
          | inl e ↦
              rw (same, z, e) (logged-Simulates c _ device_id now _ _ t s (refl, refl, cols) a)
          | inr e ↦
              let (d, p) = plain.writable e in
              rw (same, z, e, p) (logged-Simulates c _ device_id now _ _ t s (refl, refl, p) a)
        ]
        | inr z ↦ rw (same, z) (refused-Simulates c _ _ device_id now _ t s a)
      ]

  change_book-Simulates :
      (old : Option (BookRow Raw)) (found : Option (MemoryBook Raw)) (c : Change Raw)
      (device_id : String) (now : Time) (t : SyncTables Raw) (s : MemorySyncStore Raw)
      → RowAgrees old found
      → IsPlain c
      → Agrees t s
      → Simulates (change_book codec old c device_id now t) (apply_to_book found c device_id now s)
  change_book-Simulates none none c device_id now t s h plain a =
      new_book-Simulates c device_id now t s plain a
  change_book-Simulates (some row) (some book) c device_id now t s h plain a =
      found_book-Simulates row book c device_id now t s h plain a
  change_book-Simulates none (some book) c device_id now t s h plain a = absurd h
  change_book-Simulates (some row) none c device_id now t s h plain a = absurd h

  settle-Simulates :
      (t : SyncTables Raw) (r : Result ChangeOutcome × SyncTables Raw)
      (m : ChangeOutcome × MemorySyncStore Raw)
      → Simulates r m
      → Simulates (settle t r) m
  unfolding settle
  settle-Simulates t (ok o, u) m sim = sim
  settle-Simulates t (err e, u) m sim = absurd (err_not_ok sim.succeeds)
    where
      err_not_ok : {o : ChangeOutcome} → err e ≡ ok o → ⊥
      err_not_ok h = cc h

  pub apply_book_change-Simulates :
      (c : Change Raw) (source device_id : String) (now : Time) (t : SyncTables Raw)
      (s : MemorySyncStore Raw)
      → IsPlain c
      → Agrees t s
      → Simulates
          (apply_book_change codec c source device_id now t)
          (Books.apply_book_change c source device_id now s)
  unfolding apply_book_change transaction book_body decide_book Books.apply_book_change
  apply_book_change-Simulates c source device_id now t s plain a =
      settle-Simulates t _ _ (elim (Bool-cases (is_some (lookup c.change_id s.change_ids))) [
        | inl e ↦ rw (a.known c.change_id, e) (unchanged-Simulates _ _ t s refl a)
        | inr e ↦
            rw (a.known c.change_id, e, plain.kept)
              (change_book-Simulates _ _ c device_id now t s (a.row c.entity_id) plain a)
      ])
