-- ===== src/Store/Postgres/Conflicts.antt =====
-- internal/store/conflict_store.go: `PGConflictStore` over `conflicts`, joined with the event of
-- the change and with the row of the entity or of the book. `build_object` is
-- `jsonb_build_object` on the columns of a book, which are NULL where no row is joined.
use telebook_server.Prelude.{
  ℕ, String, Bool, true, false, ◌&&◌, Option, none, some, List, [], ◌∷◌, lookup, eqb, ◌==◌,
  if◌then◌else◌,
}
use telebook_server.Prelude.Int.{ℤ}
use telebook_server.Model.Errors.{Error, Result, ok, err}
use telebook_server.Model.Action.{Action}
use telebook_server.Model.Sync.{SyncEvent, entity_book}
use telebook_server.Model.Conflict.{Conflict, resolved}
use telebook_server.Store.Memory.{MemoryEvent}
use telebook_server.Store.Memory.Conflicts.{is_open}
use telebook_server.Store.Postgres.{SyncTables, EntityRow, BookRow, ConflictRow}
use telebook_server.Store.Postgres.Entities.{find_entity}

abbrev pub BuildObject : Type 0 → Type 0
BuildObject Raw = Option String → Option ℤ → Option String → Option Raw → Raw

-- An UPDATE of the open conflict of the id: the rows, and whether one was changed.
unfoldable pub close_row : ℕ → String → List ConflictRow → List ConflictRow × Bool
unfolding is_open
close_row id device_id [] = ([], false)
close_row id device_id (c ∷ cs) =
    let (rest, changed) = close_row id device_id cs in
    if eqb c.id id && is_open c.status
    then (record c { status = resolved; resolved_by = some device_id } ∷ rest, true)
    else (c ∷ rest, changed)

module _ {Raw : Type 0} where
  unfoldable pub find_event : ℕ → List (MemoryEvent Raw) → Option (SyncEvent Raw)
  find_event id [] = none
  find_event id (e ∷ es) = if eqb e.event.id id then some e.event else find_event id es

  unfoldable pub after_update :
      List ConflictRow × Bool → SyncTables Raw → Result (Unit {0}) × SyncTables Raw
  after_update (rows, true) t = (ok tt, record t { conflicts = rows })
  after_update (rows, false) t = (err Error.conflict_resolved, record t { conflicts = rows })

  -- A conflict that is not there is reported as resolved too.
  unfoldable pub mark_resolved : ℕ → String → Action (SyncTables Raw) (Unit {0})
  unfolding close_row after_update
  mark_resolved id device_id t = after_update (close_row id device_id t.conflicts) t

module _ {Raw : Type 0} (build_object : BuildObject Raw) where
  unfoldable pub book_object : Option (BookRow Raw) → Raw
  book_object none = build_object none none none none
  book_object (some row) =
      build_object (some row.data_of.name) (some row.data_of.current_page) row.data_of.cover_hash
        (some row.data_of.files)

  -- COALESCE of the entity's payload and the object.
  unfoldable pub entity_object : Option (EntityRow Raw) → Raw
  entity_object none = build_object none none none none
  entity_object (some row) = elim row.payload [
    | none ↦ build_object none none none none
    | some raw ↦ raw
  ]

  unfoldable pub server_object : String → String → SyncTables Raw → Raw
  unfolding book_object entity_object
  server_object t i tables =
      if t == entity_book
      then book_object (lookup i tables.current_book)
      else entity_object (find_entity t i tables.entities)

  unfoldable pub joined : ConflictRow → SyncEvent Raw → SyncTables Raw → Conflict Raw
  unfolding server_object
  joined c e t = record {
    id = c.id;
    entity_type = c.entity_type;
    entity_id = c.entity_id;
    local_payload = e.payload;
    server_payload = some (server_object c.entity_type c.entity_id t);
    server_revision = c.current_revision;
    status = c.status;
    created_at = c.created_at;
  }

  -- The rows of `conflictSelect` that pass the test, in the order of their ids; the join with the
  -- events drops a row without its event.
  unfoldable pub conflict_select :
      (ConflictRow → Bool) → List ConflictRow → SyncTables Raw → List (Conflict Raw)
  unfolding joined
  conflict_select where_clause [] t = []
  conflict_select where_clause (c ∷ cs) t =
      let rest = conflict_select where_clause cs t in
      if where_clause c
      then elim (find_event c.event_id t.event_tables.sync_events) [
        | none ↦ rest
        | some e ↦ joined c e t ∷ rest
      ]
      else rest

  unfoldable pub list_open : SyncTables Raw → List (Conflict Raw)
  list_open t = conflict_select (λ c. is_open c.status) t.conflicts t

  unfoldable pub first_row : List (Conflict Raw) → Result (Conflict Raw)
  first_row [] = err Error.conflict_not_found
  first_row (c ∷ cs) = ok c

  unfoldable pub get_conflict : ℕ → SyncTables Raw → Result (Conflict Raw)
  unfolding first_row
  get_conflict id t = first_row (conflict_select (λ c. eqb c.id id) t.conflicts t)
