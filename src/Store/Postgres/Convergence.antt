-- ===== src/Store/Postgres/Convergence.antt =====
-- The writing methods of the PostgreSQL stores, and what the event stream says of the library.
use telebook_server.Prelude.{
  ℕ, String, ◌≡◌, refl, true, false, Option, none, some, lookup, inl, inr, arith, ◌==◌, if_rule,
  Bool-cases, Option-cases,
}
use telebook_server.Prelude.Int.{eq_pos}
use telebook_server.Model.Errors.{Result, ok, err}
use telebook_server.Model.Action.{◌>>=◌}
use telebook_server.Model.Book.{RawMessage, Time, Codec}
use telebook_server.Model.Sync.{op_upsert, Change, op_delete, op_progress, entity_book}
use telebook_server.Store.Postgres.{
  SyncTables, EntityRow, BookRow, BookData, transaction, settle, rolled_back,
}
use telebook_server.Store.Postgres.Rows.{
  put_row, change_exists, log_accepted, log_refused, insert_event, insert_conflict, put_conflict,
  payload_data, parse_book_payload, written_row, write_row, fits_integer,
}
use telebook_server.Store.Postgres.Books.{
  book_event, apply_book_change, book_body, decide_book, move_progress, change_book, change_row,
  set_page, write_book_data, force_upsert_book, force_book, buried_row, paged_row,
}
use telebook_server.Store.Postgres.Entities.{
  changed_entity, save_entity, apply_change, entity_body, change_entity, force_upsert, force_entity,
}
use telebook_server.Store.Postgres.Restore.{bury}
use telebook_server.Store.Postgres.Replay.{
  Mirrored, live_data, with_page, client_change, same_rows-Mirrored, put_event-Mirrored,
  put_other-Mirrored, put_conflict_event-Mirrored,
}

module _ {Raw : Type 0} (codec : Codec Raw) where
  abbrev pub Mirrors : {A : Type 0} → Result A × SyncTables Raw → Type 0
  Mirrors r = Mirrored codec (r.1)

  pub settle-Mirrored :
      {A : Type 0} (s : SyncTables Raw) (r : Result A × SyncTables Raw)
      → Mirrored codec s
      → Mirrors r
      → Mirrors (settle s r)
  unfolding settle rolled_back
  settle-Mirrored s (ok a, t) v w = w
  settle-Mirrored s (err e, t) v w = same_rows-Mirrored codec s _ refl refl v

  log_refused-Mirrored :
      (c : Change Raw) (rev : ℕ) (device_id : String) (now : Time) (t : SyncTables Raw)
      → Mirrored codec t
      → Mirrors (log_refused c rev device_id now t)
  unfolding log_refused insert_conflict put_conflict
  log_refused-Mirrored c rev device_id now t v =
      same_rows-Mirrored codec _ _ refl refl
        (put_conflict_event-Mirrored codec c rev device_id now t v)

  progress_lem :
      (payload : RawMessage Raw) (row : BookRow Raw) (o : Option (BookRow Raw))
      → o ≡ some row
      → client_change codec op_progress payload (live_data o)
        ≡ live_data (some (paged_row (parse_book_payload codec payload).current_page row))
  unfolding client_change live_data with_page paged_row
  progress_lem payload row o found = rw found (ground arith)

  deletion_lem :
      (op : String) (payload : RawMessage Raw) (row : BookRow Raw) (v : Option (BookData Raw))
      → (op == op_delete) ≡ true
      → client_change codec op payload v ≡ live_data (some (buried_row row))
  unfolding client_change live_data buried_row
  deletion_lem op payload row v e = rw e refl

  writing_lem :
      (op : String) (payload : RawMessage Raw) (d : BookData Raw) (old : Option (BookRow Raw))
      (v : Option (BookData Raw))
      → (op == op_delete) ≡ false
      → (op == op_progress) ≡ false
      → payload_data codec payload ≡ some d
      → client_change codec op payload v ≡ live_data (some (written_row d old))
  unfolding client_change live_data written_row
  writing_lem op payload d none v e f g = rw (e, f, g) refl
  writing_lem op payload d (some row) v e f g = rw (e, f, g) refl

  move_progress-Mirrored :
      (old : Option (BookRow Raw)) (c : Change Raw) (device_id : String) (now : Time)
      (t : SyncTables Raw)
      → lookup c.entity_id t.current_book ≡ old
      → Mirrored codec t
      → Mirrors (move_progress codec old c device_id now t)
  unfolding move_progress set_page insert_event
  move_progress-Mirrored none c device_id now t found v = v
  move_progress-Mirrored (some row) c device_id now t found v =
      elim (Bool-cases (fits_integer (parse_book_payload codec c.payload).current_page)) [
        | inl e ↦ rw e (
            put_event-Mirrored codec _ _ device_id now t _ refl (progress_lem c.payload row _ found)
              v)
        | inr e ↦ rw e v
      ]

  -- The row of a change that is neither a deletion nor a progress, and its event.
  written-Mirrored :
      (old : Option (BookRow Raw)) (c : Change Raw) (device_id : String) (now : Time)
      (t : SyncTables Raw)
      → (c.op == op_delete) ≡ false
      → (c.op == op_progress) ≡ false
      → Mirrored codec t
      → Mirrors (
          (do
            revision ← write_book_data codec old c
            log_accepted (book_event c) revision device_id now)
            t)
  unfolding write_book_data write_row log_accepted insert_event
  written-Mirrored old c device_id now t e f v =
      elim (Option-cases (payload_data codec c.payload)) [
        | inl n ↦ rw n v
        | inr (d, g) ↦ rw g (
            put_event-Mirrored codec _ _ device_id now t _ refl
              (writing_lem c.op c.payload d old _ e f g) v)
      ]

  buried-Mirrored :
      (row : BookRow Raw) (c : Change Raw) (device_id : String) (now : Time) (t : SyncTables Raw)
      → (c.op == op_delete) ≡ true
      → Mirrored codec t
      → Mirrors (
          (do
            revision ← put_row c.entity_id (buried_row row)
            log_accepted (book_event c) revision device_id now)
            t)
  unfolding log_accepted insert_event
  buried-Mirrored row c device_id now t e v =
      put_event-Mirrored codec _ _ device_id now t _ refl (deletion_lem c.op c.payload row _ e) v

  change_book-Mirrored :
      (old : Option (BookRow Raw)) (c : Change Raw) (device_id : String) (now : Time)
      (t : SyncTables Raw)
      → (c.op == op_progress) ≡ false
      → Mirrored codec t
      → Mirrors (change_book codec old c device_id now t)
  unfolding change_book change_row
  change_book-Mirrored none c device_id now t f v = elim (Bool-cases (c.op == op_delete)) [
    | inl e ↦ rw e v
    | inr e ↦ elim (Bool-cases (eq_pos c.base_revision 0)) [
      | inl z ↦ rw (e, z) (written-Mirrored none c device_id now t e f v)
      | inr z ↦ rw (e, z) v
    ]
  ]
  change_book-Mirrored (some row) c device_id now t f v =
      elim (Bool-cases (eq_pos c.base_revision row.revision)) [
        | inl z ↦ elim (Bool-cases (c.op == op_delete)) [
          | inl e ↦ rw (z, e) (buried-Mirrored row c device_id now t e v)
          | inr e ↦ rw (z, e) (written-Mirrored (some row) c device_id now t e f v)
        ]
        | inr z ↦ rw z (log_refused-Mirrored c row.revision device_id now t v)
      ]

  decide_book-Mirrored :
      (old : Option (BookRow Raw)) (c : Change Raw) (device_id : String) (now : Time)
      (t : SyncTables Raw)
      → lookup c.entity_id t.current_book ≡ old
      → Mirrored codec t
      → Mirrors (decide_book codec old c device_id now t)
  unfolding decide_book
  decide_book-Mirrored old c device_id now t found v = elim (Bool-cases (c.op == op_progress)) [
    | inl e ↦ rw e (move_progress-Mirrored old c device_id now t found v)
    | inr e ↦ rw e (change_book-Mirrored old c device_id now t e v)
  ]

  pub apply_book_change-Mirrored :
      (c : Change Raw) (source device_id : String) (now : Time) (t : SyncTables Raw)
      → Mirrored codec t
      → Mirrors (apply_book_change codec c source device_id now t)
  unfolding apply_book_change transaction book_body
  apply_book_change-Mirrored c source device_id now t v = settle-Mirrored t _ v (
      if_rule Mirrors (change_exists c.change_id t.event_tables.sync_events) (λ _. v)
        λ _. decide_book-Mirrored _ c device_id now t refl v)

  pub force_book-Mirrored :
      (fresh : ℕ → String) (id : String) (o : Option (BookData Raw)) (payload : RawMessage Raw)
      (device_id : String) (now : Time) (t : SyncTables Raw)
      → ((d : BookData Raw) → o ≡ some d → payload_data codec payload ≡ some d)
      → Mirrored codec t
      → Mirrors (force_book fresh id o payload device_id now t)
  unfolding force_book write_row log_accepted insert_event
  force_book-Mirrored fresh id none payload device_id now t reads v = v
  force_book-Mirrored fresh id (some d) payload device_id now t reads v =
      put_event-Mirrored codec _ _ device_id now t _ refl
        (writing_lem op_upsert payload d (lookup id t.current_book) _ refl refl (reads d refl)) v

  pub force_upsert_book-Mirrored :
      (fresh : ℕ → String) (id : String) (payload : RawMessage Raw) (device_id : String)
      (now : Time) (t : SyncTables Raw)
      → Mirrored codec t
      → Mirrors (force_upsert_book codec fresh id payload device_id now t)
  unfolding force_upsert_book transaction
  force_upsert_book-Mirrored fresh id payload device_id now t v =
      settle-Mirrored t _ v (force_book-Mirrored fresh id _ payload device_id now t (λ d e. e) v)

  put_entity-Mirrored :
      (row : EntityRow Raw) (c : Change Raw) (device_id : String) (now : Time) (t : SyncTables Raw)
      → (c.entity_type == entity_book) ≡ false
      → Mirrored codec t
      → Mirrors ((do revision ← save_entity row; log_accepted c revision device_id now) t)
  unfolding log_accepted insert_event
  put_entity-Mirrored row c device_id now t other v =
      put_other-Mirrored codec c _ device_id now _ other (same_rows-Mirrored codec t _ refl refl v)

  change_entity-Mirrored :
      (old : Option (EntityRow Raw)) (c : Change Raw) (device_id : String) (now : Time)
      (t : SyncTables Raw)
      → (c.entity_type == entity_book) ≡ false
      → Mirrored codec t
      → Mirrors (change_entity codec old c device_id now t)
  unfolding change_entity
  change_entity-Mirrored none c device_id now t other v = elim (Bool-cases (c.op == op_delete)) [
    | inl e ↦ rw e v
    | inr e ↦ elim (Bool-cases (eq_pos c.base_revision 0)) [
      | inl z ↦ rw (e, z) (put_entity-Mirrored _ c device_id now t other v)
      | inr z ↦ rw (e, z) v
    ]
  ]
  change_entity-Mirrored (some row) c device_id now t other v =
      elim (Bool-cases (eq_pos c.base_revision row.revision)) [
        | inl z ↦ rw z (put_entity-Mirrored (changed_entity codec c row) c device_id now t other v)
        | inr z ↦ rw z (log_refused-Mirrored c row.revision device_id now t v)
      ]

  pub apply_change-Mirrored :
      (c : Change Raw) (device_id : String) (now : Time) (t : SyncTables Raw)
      → (c.entity_type == entity_book) ≡ false
      → Mirrored codec t
      → Mirrors (apply_change codec c device_id now t)
  unfolding apply_change transaction entity_body
  apply_change-Mirrored c device_id now t other v = settle-Mirrored t _ v (
      if_rule Mirrors (change_exists c.change_id t.event_tables.sync_events) (λ _. v)
        λ _. change_entity-Mirrored _ c device_id now t other v)

  pub force_upsert-Mirrored :
      (fresh : ℕ → String) (ty id : String) (payload : RawMessage Raw) (device_id : String)
      (now : Time) (t : SyncTables Raw)
      → (ty == entity_book) ≡ false
      → Mirrored codec t
      → Mirrors (force_upsert codec fresh ty id payload device_id now t)
  unfolding force_upsert transaction force_entity
  force_upsert-Mirrored fresh ty id payload device_id now t other v =
      settle-Mirrored t _ v (put_entity-Mirrored _ _ device_id now t other v)

  pub bury-Mirrored :
      (fresh : ℕ → String) (old : Option (BookRow Raw)) (id device_id : String) (now : Time)
      (t : SyncTables Raw)
      → Mirrored codec t
      → Mirrors (bury fresh old id device_id now t)
  unfolding bury insert_event
  bury-Mirrored fresh none id device_id now t v = v
  bury-Mirrored fresh (some row) id device_id now t v =
      put_event-Mirrored codec _ _ device_id now t _ refl (deletion_lem op_delete none row _ refl) v
