-- ===== src/Store/Postgres/Listing.antt =====
-- `ListOpen` of internal/store/conflict_store.go: every open conflict is listed.
use telebook_server.Prelude.{
  inl, inr, Bool-cases, ℕ, String, ◌≡◌, refl, Option, none, some, List, [], ◌∷◌, All, map, keep,
}
use telebook_server.Model.Conflict.{Conflict, ConflictStatus}
use telebook_server.Model.Sync.{SyncEvent}
use telebook_server.Model.Book.{RawMessage, Time, Codec}
use telebook_server.Store.Memory.Conflicts.{is_open}
use telebook_server.Store.Postgres.{SyncTables, ConflictRow, empty_tables}
use telebook_server.Store.Postgres.Conflicts.{
  conflict_select, list_open, joined, BuildObject, server_object, find_event,
}
use telebook_server.Store.Postgres.Soundness.{Refers}
use telebook_server.Store.Postgres.Steps.{Reach}
use telebook_server.Store.Postgres.Histories.{reachable-Sound}

module _ {Raw : Type 0} (build_object : BuildObject Raw) where
  -- What a conflict consists of.
  abbrev pub Shown : Type 0
  Shown = ℕ × String × String × ℕ × ConflictStatus × Time × RawMessage Raw × Option (RawMessage Raw)

  abbrev pub shown : Conflict Raw → Shown
  shown k = (
    k.id,
    k.entity_type,
    k.entity_id,
    k.server_revision,
    k.status,
    k.created_at,
    k.server_payload,
    some k.local_payload,
  )

  abbrev payload_of : Option (SyncEvent Raw) → Option (RawMessage Raw)
  payload_of none = none
  payload_of (some e) = some e.payload

  -- The same of a row, with the server's data and the payload of the row's event.
  abbrev pub stored : SyncTables Raw → ConflictRow → Shown
  stored t c = (
    c.id,
    c.entity_type,
    c.entity_id,
    c.current_revision,
    c.status,
    c.created_at,
    some (server_object build_object c.entity_type c.entity_id t),
    payload_of (find_event c.event_id t.event_tables.sync_events),
  )

  selected-rows :
      (cs : List ConflictRow) (t : SyncTables Raw)
      → All (Refers t.event_tables.sync_events) cs
      → map shown (conflict_select build_object (λ c. is_open c.status) cs t)
        ≡ map (stored t) (keep (λ c. is_open c.status) cs)
  unfolding conflict_select joined keep
  selected-rows [] t h = refl
  selected-rows (c ∷ cs) t ((e, found, ty, i), h) = elim (Bool-cases (is_open c.status)) [
    | inl o ↦ rw (o, found, selected-rows cs t h) refl
    | inr o ↦ rw o (selected-rows cs t h)
  ]

  -- After any sequence of calls of the PostgreSQL stores on empty tables, successful or not, where
  -- the store of the entities gets no books, `ListOpen` gives one conflict for every row of
  -- `conflicts` that is open, and no other, in the order of the rows: with the fields of the row,
  -- the server's data of its entity, and the payload of its event, which is always there.
  pub every_open_conflict_listed :
      (codec : Codec Raw) {t : SyncTables Raw}
      → Reach codec (empty_tables {Raw = Raw}) t
      → map shown (list_open build_object t)
        ≡ map (stored t) (keep (λ c. is_open c.status) t.conflicts)
  unfolding list_open
  every_open_conflict_listed codec {t} r =
      selected-rows t.conflicts t (reachable-Sound codec r).refers
