-- ===== src/Store/Postgres/Progress.antt =====
-- The updates of the reading progress of a book, which `ApplyBookChange` of the PostgreSQL store
-- keeps apart from its revision.
use telebook_server.Prelude.{
  if_rule, ℕ, String, ◌≡◌, refl, ◌∙◌, sym, Bool, true, false, Option, none, some, lookup, insert,
  lookup-insert, arith, eq_iff, ◌==◌, Bool-cases, Option-cases, inl, inr,
}
use telebook_server.Prelude.Int.{ℤ, eq_pos}
use telebook_server.Model.Errors.{Result, ok, err, map_ok}
use telebook_server.Model.Book.{Time, Codec}
use telebook_server.Model.Sync.{Change, ChangeOutcome, Reason, op_delete, op_progress}
use telebook_server.Store.Postgres.{SyncTables, BookRow, transaction, settle, rolled_back}
use telebook_server.Store.Postgres.Rows.{
  duplicate_outcome, change_exists, put_event, log_accepted, log_refused, insert_event,
  insert_conflict, put_conflict, payload_data, parse_book_payload, written_row, write_row,
  fits_integer,
}
use telebook_server.Store.Postgres.Books.{
  apply_book_change, book_body, decide_book, move_progress, change_book, change_row,
  write_book_data, buried_row, set_page, paged_row,
}
use telebook_server.Store.Postgres.Agreement.{verdict, change_exists-append}

module _ {Raw : Type 0} where
  -- The revision of a row, which decides on a change.
  abbrev pub lock_of : Option (BookRow Raw) → Option ℕ
  lock_of none = none
  lock_of (some row) = some row.revision

  abbrev told : Result ChangeOutcome × SyncTables Raw → Result (Bool × ℕ × Reason)
  told r = map_ok verdict (r.0)

  settle-told :
      (t : SyncTables Raw) (r : Result ChangeOutcome × SyncTables Raw) → told (settle t r) ≡ told r
  unfolding settle
  settle-told t (ok o, u) = refl
  settle-told t (err e, u) = refl

module _ {Raw : Type 0} (codec : Codec Raw) where
  new_book-told :
      (c : Change Raw) (device_id : String) (now : Time) (t u : SyncTables Raw)
      → told (change_book codec none c device_id now t)
        ≡ told (change_book codec none c device_id now u)
  unfolding change_book write_book_data write_row written_row log_accepted insert_event put_event
  new_book-told c device_id now t u = elim (Bool-cases (c.op == op_delete)) [
    | inl e ↦ rw e refl
    | inr e ↦ elim (Bool-cases (eq_pos c.base_revision 0)) [
      | inl z ↦ elim (Option-cases (payload_data codec c.payload)) [
        | inl n ↦ rw (e, z, n) refl
        | inr (d, p) ↦ rw (e, z, p) refl
      ]
      | inr z ↦ rw (e, z) refl
    ]
  ]

  found_book-told :
      (row other : BookRow Raw) (c : Change Raw) (device_id : String) (now : Time)
      (t u : SyncTables Raw)
      → row.revision ≡ other.revision
      → told (change_book codec (some row) c device_id now t)
        ≡ told (change_book codec (some other) c device_id now u)
  unfolding change_book change_row write_book_data write_row written_row buried_row log_accepted
      log_refused insert_event insert_conflict put_conflict put_event
  found_book-told row other c device_id now t u same =
      elim (Bool-cases (eq_pos c.base_revision other.revision)) [
        | inl z ↦ elim (Bool-cases (c.op == op_delete)) [
          | inl e ↦ rw (same, z, e) refl
          | inr e ↦ elim (Option-cases (payload_data codec c.payload)) [
            | inl n ↦ rw (same, z, e, n) refl
            | inr (d, p) ↦ rw (same, z, e, p) refl
          ]
        ]
        | inr z ↦ rw (same, z) refl
      ]

  progress-told :
      (row other : BookRow Raw) (c : Change Raw) (device_id : String) (now : Time)
      (t u : SyncTables Raw)
      → told (move_progress codec (some row) c device_id now t)
        ≡ told (move_progress codec (some other) c device_id now u)
  unfolding move_progress set_page insert_event put_event
  progress-told row other c device_id now t u =
      elim (Bool-cases (fits_integer (parse_book_payload codec c.payload).current_page)) [
        | inl e ↦ rw e refl
        | inr e ↦ rw e refl
      ]

  decide_book-told :
      (old new : Option (BookRow Raw)) (c : Change Raw) (device_id : String) (now : Time)
      (t u : SyncTables Raw)
      → lock_of old ≡ lock_of new
      → told (decide_book codec old c device_id now t)
        ≡ told (decide_book codec new c device_id now u)
  unfolding decide_book
  decide_book-told none none c device_id now t u h = elim (Bool-cases (c.op == op_progress)) [
    | inl e ↦ rw e (unfold move_progress in refl)
    | inr e ↦ rw e (new_book-told c device_id now t u)
  ]
  decide_book-told (some row) (some other) c device_id now t u h =
      elim (Bool-cases (c.op == op_progress)) [
        | inl e ↦ rw e (progress-told row other c device_id now t u)
        | inr e ↦ rw e (found_book-told row other c device_id now t u (cc h))
      ]
  decide_book-told none (some other) c device_id now t u h = absurd (cc h)
  decide_book-told (some row) none c device_id now t u h = absurd (cc h)

  -- The change ids and the revisions decide what a device is told.
  apply_book_change-told :
      (c : Change Raw) (source device_id : String) (now : Time) (t u : SyncTables Raw)
      → change_exists c.change_id t.event_tables.sync_events
        ≡ change_exists c.change_id u.event_tables.sync_events
      → lock_of (lookup c.entity_id t.current_book) ≡ lock_of (lookup c.entity_id u.current_book)
      → told (apply_book_change codec c source device_id now t)
        ≡ told (apply_book_change codec c source device_id now u)
  unfolding apply_book_change transaction book_body
  apply_book_change-told c source device_id now t u known lock =
      settle-told t _ ∙ bodies ∙ sym (settle-told u _)
    where
      bodies : told (book_body codec c device_id now t) ≡ told (book_body codec c device_id now u)
      bodies = elim (Bool-cases (change_exists c.change_id u.event_tables.sync_events)) [
        | inl e ↦ rw (known, e) refl
        | inr e ↦ rw (known, e) (decide_book-told _ _ c device_id now t u lock)
      ]

  -- What an update of the progress leaves: the revisions of the books, and all change ids but its
  -- own.
  record Apart (p : Change Raw) (t : SyncTables Raw) (r : Result ChangeOutcome × SyncTables Raw)
      : Type 0 where
    pub lock :
        (id : String) → lock_of (lookup id (r.1.current_book)) ≡ lock_of (lookup id t.current_book)
    pub ids :
        (j : String)
        → (p.change_id == j) ≡ false
        → change_exists j (r.1.event_tables.sync_events)
          ≡ change_exists j t.event_tables.sync_events

  unchanged-Apart :
      (p : Change Raw) (r : Result ChangeOutcome) (t : SyncTables Raw) → Apart p t (r, t)
  unchanged-Apart p r t = record { lock = λ id. refl; ids = λ j ne. refl }

  settle-Apart :
      (p : Change Raw) (t : SyncTables Raw) (r : Result ChangeOutcome × SyncTables Raw)
      → Apart p t r
      → Apart p t (settle t r)
  unfolding settle rolled_back
  settle-Apart p t (ok o, u) a = a
  settle-Apart p t (err e, u) a = record { lock = λ id. refl; ids = λ j ne. refl }

  paged-lock :
      (id j : String) (page : ℤ) (row : BookRow Raw) (t : SyncTables Raw)
      → lookup id t.current_book ≡ some row
      → lock_of (lookup j (insert id (paged_row page row) t.current_book))
        ≡ lock_of (lookup j t.current_book)
  unfolding paged_row
  paged-lock id j page row t found = elim (Bool-cases (id == j)) [
    | inl e ↦ rw (lookup-insert id j, e, sym ((eq_iff id j).0 e), found) refl
    | inr e ↦ rw (lookup-insert id j, e) refl
  ]

  move_progress-Apart :
      (old : Option (BookRow Raw)) (p : Change Raw) (device_id : String) (now : Time)
      (t : SyncTables Raw)
      → lookup p.entity_id t.current_book ≡ old
      → Apart p t (move_progress codec old p device_id now t)
  unfolding move_progress set_page insert_event put_event change_exists
  move_progress-Apart none p device_id now t found = unchanged-Apart p _ t
  move_progress-Apart (some row) p device_id now t found =
      elim (Bool-cases (fits_integer (parse_book_payload codec p.payload).current_page)) [
        | inl e ↦ rw e (record {
          lock = λ id. paged-lock p.entity_id id _ row t found;
          ids = λ j ne. rw (change_exists-append j, ne) (ground arith);
        })
        | inr e ↦ rw e (unchanged-Apart p _ t)
      ]

  apply_progress-Apart :
      (p : Change Raw) (source device_id : String) (now : Time) (t : SyncTables Raw)
      → (p.op == op_progress) ≡ true
      → Apart p t (apply_book_change codec p source device_id now t)
  unfolding apply_book_change transaction book_body decide_book
  apply_progress-Apart p source device_id now t e = settle-Apart p t _ (
      if_rule (Apart p t) (change_exists p.change_id t.event_tables.sync_events)
        (λ _. unchanged-Apart p (ok duplicate_outcome) t)
        λ _. rw e (move_progress-Apart (lookup p.entity_id t.current_book) p device_id now t refl))

  -- An update of the progress of any book, whether it succeeds or not, does not change what a device
  -- is told of a change under another change id: the answer is an error as before, or is accepted
  -- or not, with the revision and the reason, as before.
  pub progress_invisible :
      (p c : Change Raw) (source device_id other : String) (now later : Time) (t : SyncTables Raw)
      → (p.op == op_progress) ≡ true
      → (p.change_id == c.change_id) ≡ false
      → map_ok verdict
          (apply_book_change codec c source other later
            (apply_book_change codec p source device_id now t).1).0
        ≡ map_ok verdict (apply_book_change codec c source other later t).0
  progress_invisible p c source device_id other now later t e ne =
      apply_book_change-told c source other later _ t (a.ids c.change_id ne) (a.lock c.entity_id)
    where
      a : Apart p t (apply_book_change codec p source device_id now t)
      a = apply_progress-Apart p source device_id now t e
