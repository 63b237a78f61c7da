-- ===== src/Store/Memory/Closing.antt =====
-- Reading a conflict and closing it.
use telebook_server.Prelude.{ℕ, ◌≡◌, List, [], ◌∷◌, eqb, arith, if◌then◌else◌, Bool-cases, inl, inr}
use telebook_server.Model.Errors.{ok}
use telebook_server.Model.Conflict.{Conflict, open_conflict, resolved}
use telebook_server.Store.Memory.{MemoryConflict}
use telebook_server.Store.Memory.Conflicts.{find_conflict, mark_among, close, is_open}

module _ {Raw : Type 0} where
  -- The first conflict of the id, closed.
  unfoldable pub closed : ℕ → List (MemoryConflict Raw) → List (MemoryConflict Raw)
  closed id [] = []
  closed id (c ∷ cs) = if eqb c.record_of.id id then close c ∷ cs else c ∷ closed id cs

  pub mark_among-closed :
      (id : ℕ) (cs : List (MemoryConflict Raw)) (k : Conflict Raw)
      → find_conflict id cs ≡ ok k
      → k.status ≡ open_conflict
      → mark_among id cs ≡ ok (closed id cs)
  unfolding find_conflict mark_among closed is_open
  mark_among-closed id [] k f o = cc
  mark_among-closed id (c ∷ cs) k f o = elim (Bool-cases (eqb c.record_of.id id)) [
    | inl e ↦ rw e (ground arith)
    | inr e ↦ rw e (rw (mark_among-closed id cs k (rw e at f) o))
  ]

  pub find_conflict-closed :
      (id : ℕ) (cs : List (MemoryConflict Raw)) (k : Conflict Raw)
      → find_conflict id cs ≡ ok k
      → find_conflict id (closed id cs) ≡ ok (record k { status = resolved })
  unfolding find_conflict closed close
  find_conflict-closed id [] k f = cc
  find_conflict-closed id (c ∷ cs) k f = elim (Bool-cases (eqb c.record_of.id id)) [
    | inl e ↦ rw (e, e) (ground arith)
    | inr e ↦ rw (e, e) (find_conflict-closed id cs k (rw e at f))
  ]
