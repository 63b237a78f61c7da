-- ===== src/Store/Postgres/Operations.antt =====
-- The methods of the PostgreSQL stores that write books and entities, and the soundness of the
-- tables.
use telebook_server.Prelude.{
  sym, if_rule, inl, inr, Bool-cases, Bool-cases, ℕ, suc, ◌≤◌, String, ◌≡◌, refl, not, Option, none,
  some, [], ◌∷◌, lookup, GoMap, All, arith, ◌==◌,
}
use telebook_server.Prelude.Int.{eq_pos}
use telebook_server.Model.Errors.{Error, Result, ok, err}
use telebook_server.Model.Action.{◌>>=◌}
use telebook_server.Model.Book.{RawMessage, Time, Codec}
use telebook_server.Model.Sync.{ChangeOutcome, op_upsert, Change, op_delete, op_progress}
use telebook_server.Store.Postgres.{SyncTables, EntityRow, BookRow, BookData}
use telebook_server.Store.Postgres.Rows.{
  normalize_payload, refused_outcome, accepted_outcome, put_row, log_accepted, payload_data,
  parse_book_payload, change_exists, fits_integer,
}
use telebook_server.Store.Postgres.Books.{
  server_change, apply_book_change, book_body, decide_book, move_progress, change_book, change_row,
  set_page, write_book_data, force_upsert_book, force_book, buried_row, paged_row, book_event,
}
use telebook_server.Store.Postgres.Entities.{
  find_entity, save_entity, apply_change, entity_body, change_entity, changed_entity, entity_row,
  force_upsert, force_entity,
}
use telebook_server.Store.Postgres.Soundness.{
  Later, IsSafe, IsPositive, Later-refl, transaction-IsSafe, bind-IsSafe, reading-IsSafe, if-IsSafe,
  put_row-IsSafe, save_entity-IsSafe,
}
use telebook_server.Store.Postgres.Preserves.{
  log_accepted-IsSafe, log_refused-IsSafe, write_row-IsSafe, insert_event-IsSafe,
}

module _ {Raw : Type 0} where
  pub buried_row-IsSafe : (id : String) (row : BookRow Raw) → IsSafe (put_row id (buried_row row))
  unfolding buried_row
  buried_row-IsSafe id row = put_row-IsSafe id _ (omega arith)

  entity_row-positive :
      (ty id : String) (p : Option Raw) (old : Option (EntityRow Raw))
      → 1 ≤ (entity_row ty id p old).revision
  unfolding entity_row
  entity_row-positive ty id p none = omega arith
  entity_row-positive ty id p (some row) = omega arith

  same-positive : (a b : BookRow Raw) → a ≡ b → 1 ≤ a.revision → 1 ≤ b.revision
  same-positive a b e h = rw (sym e) h

  lookup-positive :
      (id : String) (m : GoMap (BookRow Raw)) (row : BookRow Raw)
      → All IsPositive m
      → lookup id m ≡ some row
      → 1 ≤ row.revision
  unfolding lookup
  lookup-positive id [] row h e = absurd (cc e)
  lookup-positive id ((j, w) ∷ m) row h e = elim (Bool-cases (j == id)) [
    | inl f ↦ same-positive w row (cc (rw f at e)) (h.0)
    | inr f ↦ lookup-positive id m row (h.1) (rw f at e)
  ]

module _ {Raw : Type 0} (codec : Codec Raw) where
  write_book_data-IsSafe :
      (old : Option (BookRow Raw)) (c : Change Raw) → IsSafe (write_book_data codec old c)
  unfolding write_book_data
  write_book_data-IsSafe old c = write_row-IsSafe c.entity_id (payload_data codec c.payload) old

  change_row-IsSafe : (row : BookRow Raw) (c : Change Raw) → IsSafe (change_row codec row c)
  unfolding change_row
  change_row-IsSafe row c =
      if-IsSafe (c.op == op_delete) _ _ (λ _. buried_row-IsSafe c.entity_id row)
        λ _. write_book_data-IsSafe (some row) c

  move_progress-IsSafe :
      (old : Option (BookRow Raw)) (c : Change Raw) (device_id : String) (now : Time)
      → ((row : BookRow Raw) → old ≡ some row → 1 ≤ row.revision)
      → IsSafe (move_progress codec old c device_id now)
  unfolding move_progress set_page paged_row
  move_progress-IsSafe none c device_id now h = reading-IsSafe λ t. ok accepted_outcome
  move_progress-IsSafe (some row) c device_id now h =
      bind-IsSafe _ _
        (if-IsSafe (fits_integer (parse_book_payload codec c.payload).current_page) _ _
          (λ _. put_row-IsSafe c.entity_id _ (h row refl))
          λ _. reading-IsSafe λ t. err Error.database_error)
        λ _.
          bind-IsSafe _ _ (insert_event-IsSafe _ row.revision device_id now)
            λ _. reading-IsSafe λ t. ok accepted_outcome

  change_book-IsSafe :
      (old : Option (BookRow Raw)) (c : Change Raw) (device_id : String) (now : Time)
      → IsSafe (change_book codec old c device_id now)
  unfolding change_book
  change_book-IsSafe none c device_id now =
      if-IsSafe (c.op == op_delete) _ _ (λ _. reading-IsSafe λ t. ok accepted_outcome)
        λ _.
          if-IsSafe (not (eq_pos c.base_revision 0)) _ _
            (λ _. reading-IsSafe λ t. ok (refused_outcome 0))
            λ _.
              bind-IsSafe _ _ (write_book_data-IsSafe none c)
                λ rev. log_accepted-IsSafe (book_event c) rev device_id now
  change_book-IsSafe (some row) c device_id now =
      if-IsSafe (not (eq_pos c.base_revision row.revision)) _ _
        (λ _. log_refused-IsSafe c row.revision device_id now)
        λ _.
          bind-IsSafe _ _ (change_row-IsSafe row c)
            λ rev. log_accepted-IsSafe (book_event c) rev device_id now

  decide_book-IsSafe :
      (old : Option (BookRow Raw)) (c : Change Raw) (device_id : String) (now : Time)
      → ((row : BookRow Raw) → old ≡ some row → 1 ≤ row.revision)
      → IsSafe (decide_book codec old c device_id now)
  unfolding decide_book
  decide_book-IsSafe old c device_id now h =
      if-IsSafe (c.op == op_progress) _ _ (λ _. move_progress-IsSafe old c device_id now h)
        λ _. change_book-IsSafe old c device_id now

  pub apply_book_change-IsSafe :
      (c : Change Raw) (source device_id : String) (now : Time)
      → IsSafe (apply_book_change codec c source device_id now)
  unfolding apply_book_change book_body
  apply_book_change-IsSafe c source device_id now =
      transaction-IsSafe (book_body codec c device_id now) (record {
        at = λ t w.
            if_rule {A = Result ChangeOutcome × SyncTables Raw} (λ r. Later t (r.1))
              (change_exists c.change_id t.event_tables.sync_events) (λ _. Later-refl t w)
              λ _.
                (decide_book-IsSafe (lookup c.entity_id t.current_book) c device_id now
                    λ row e. lookup-positive c.entity_id t.current_book row w.books e).at
                  t w;
      })

  pub force_book-IsSafe :
      (fresh : ℕ → String) (id : String) (d : Option (BookData Raw)) (payload : RawMessage Raw)
      (device_id : String) (now : Time)
      → IsSafe (force_book fresh id d payload device_id now)
  unfolding force_book
  force_book-IsSafe fresh id d payload device_id now = record {
    at = λ t w.
        (bind-IsSafe _ _ (write_row-IsSafe id d (lookup id t.current_book)) λ rev.
            log_accepted-IsSafe (server_change (fresh (suc t.event_seq)) id op_upsert payload) rev
              device_id now).at
          t w;
  }

  pub force_upsert_book-IsSafe :
      (fresh : ℕ → String) (id : String) (payload : RawMessage Raw) (device_id : String)
      (now : Time)
      → IsSafe (force_upsert_book codec fresh id payload device_id now)
  unfolding force_upsert_book
  force_upsert_book-IsSafe fresh id payload device_id now =
      transaction-IsSafe _ (force_book-IsSafe fresh id _ payload device_id now)

  save-IsSafe :
      (row : EntityRow Raw) (c : Change Raw) (device_id : String) (now : Time)
      → 1 ≤ row.revision
      → IsSafe (do revision ← save_entity row; log_accepted c revision device_id now)
  save-IsSafe row c device_id now p =
      bind-IsSafe _ _ (save_entity-IsSafe row p) λ rev. log_accepted-IsSafe c rev device_id now

  changed_entity-positive :
      (c : Change Raw) (row : EntityRow Raw) → 1 ≤ (changed_entity codec c row).revision
  unfolding changed_entity entity_row
  changed_entity-positive c row = ground arith

  change_entity-IsSafe :
      (old : Option (EntityRow Raw)) (c : Change Raw) (device_id : String) (now : Time)
      → IsSafe (change_entity codec old c device_id now)
  unfolding change_entity
  change_entity-IsSafe none c device_id now =
      if-IsSafe (c.op == op_delete) _ _ (λ _. reading-IsSafe λ t. ok accepted_outcome)
        λ _.
          if-IsSafe (not (eq_pos c.base_revision 0)) _ _
            (λ _. reading-IsSafe λ t. ok (refused_outcome 0))
            λ _. save-IsSafe _ c device_id now (
              entity_row-positive c.entity_type c.entity_id (normalize_payload codec c.payload)
                none)
  change_entity-IsSafe (some row) c device_id now =
      if-IsSafe (not (eq_pos c.base_revision row.revision)) _ _
        (λ _. log_refused-IsSafe c row.revision device_id now)
        λ _. save-IsSafe _ c device_id now (changed_entity-positive c row)

  pub apply_change-IsSafe :
      (c : Change Raw) (device_id : String) (now : Time)
      → IsSafe (apply_change codec c device_id now)
  unfolding apply_change entity_body
  apply_change-IsSafe c device_id now =
      transaction-IsSafe (entity_body codec c device_id now) (record {
        at = λ t w.
            if_rule {A = Result ChangeOutcome × SyncTables Raw} (λ r. Later t (r.1))
              (change_exists c.change_id t.event_tables.sync_events) (λ _. Later-refl t w)
              λ _.
                (change_entity-IsSafe (find_entity c.entity_type c.entity_id t.entities) c device_id
                    now).at
                  t w;
      })

  pub force_upsert-IsSafe :
      (fresh : ℕ → String) (ty id : String) (payload : RawMessage Raw) (device_id : String)
      (now : Time)
      → IsSafe (force_upsert codec fresh ty id payload device_id now)
  unfolding force_upsert force_entity
  force_upsert-IsSafe fresh ty id payload device_id now =
      transaction-IsSafe (force_entity codec fresh ty id payload device_id now) (record {
        at = λ t w.
            (save-IsSafe _ _ device_id now
                (entity_row-positive ty id _ (find_entity ty id t.entities))).at
              t w;
      })
