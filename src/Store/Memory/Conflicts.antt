-- ===== src/Store/Memory/Conflicts.antt =====
-- internal/store/memory_sync_store.go: the methods of `ConflictStore`.
use telebook_server.Prelude.{ℕ, String, Bool, true, false, List, [], ◌∷◌, eqb, if◌then◌else◌}
use telebook_server.Model.Errors.{Error, Result, ok, err, map_ok}
use telebook_server.Model.Conflict.{Conflict, ConflictStatus, open_conflict, resolved}
use telebook_server.Store.Memory.{MemorySyncStore, MemoryConflict}

unfoldable pub is_open : ConflictStatus → Bool
is_open open_conflict = true
is_open resolved = false

module _ {Raw : Type 0} where
  unfoldable pub open_among : List (MemoryConflict Raw) → List (Conflict Raw)
  unfolding is_open
  open_among [] = []
  open_among (c ∷ cs) =
      let rest = open_among cs in if is_open c.record_of.status then c.record_of ∷ rest else rest

  unfoldable pub list_open : MemorySyncStore Raw → List (Conflict Raw)
  unfolding open_among
  list_open s = open_among s.conflicts

  unfoldable pub find_conflict : ℕ → List (MemoryConflict Raw) → Result (Conflict Raw)
  find_conflict id [] = err Error.conflict_not_found
  find_conflict id (c ∷ cs) = if eqb c.record_of.id id then ok c.record_of else find_conflict id cs

  unfoldable pub get_conflict : ℕ → MemorySyncStore Raw → Result (Conflict Raw)
  unfolding find_conflict
  get_conflict id s = find_conflict id s.conflicts

  unfoldable pub close : MemoryConflict Raw → MemoryConflict Raw
  close c = record c { record_of = record (c.record_of) { status = resolved } }

  -- The conflicts with the first one of the id closed, if it is there and open.
  unfoldable pub mark_among : ℕ → List (MemoryConflict Raw) → Result (List (MemoryConflict Raw))
  unfolding close is_open
  mark_among id [] = err Error.conflict_not_found
  mark_among id (c ∷ cs) =
      let rest = map_ok (λ ds. c ∷ ds) (mark_among id cs) in
      if eqb c.record_of.id id
      then (if is_open c.record_of.status then ok (close c ∷ cs) else err Error.conflict_resolved)
      else rest

  unfoldable pub put_conflicts :
      Result (List (MemoryConflict Raw))
      → MemorySyncStore Raw
      → Result (Unit {0}) × MemorySyncStore Raw
  put_conflicts (ok conflicts) s = (ok tt, record s { conflicts = conflicts })
  put_conflicts (err e) s = (err e, s)

  -- `device_id` is not read.
  unfoldable pub mark_resolved :
      ℕ → String → MemorySyncStore Raw → Result (Unit {0}) × MemorySyncStore Raw
  unfolding mark_among put_conflicts
  mark_resolved id device_id s = put_conflicts (mark_among id s.conflicts) s
