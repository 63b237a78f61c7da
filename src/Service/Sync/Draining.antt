-- ===== src/Service/Sync/Draining.antt =====
-- Resolving all conflicts for the server's version, over the memory store.
use telebook_server.Prelude.{
  none, ℕ, suc, ◌<◌, String, ◌≡◌, refl, true, false, List, [], ◌∷◌, map, eqb, arith, Numbered, inl,
  inr,
}
use telebook_server.Model.Errors.{ok}
use telebook_server.Model.Conflict.{
  ConflictStatus-cases, Conflict, ResolveRequest, ConflictStatus-cases, open_conflict,
  strategy_keep_server,
}
use telebook_server.Store.Memory.{MemorySyncStore, MemoryConflict, new_memory_sync_store}
use telebook_server.Store.Memory.Conflicts.{
  open_among, list_open, is_open, find_conflict, get_conflict, close, mark_resolved, put_conflicts,
}
use telebook_server.Store.Memory.Closing.{closed, mark_among-closed}
use telebook_server.Store.Memory.Invariant.{WellFormed, conflict_number}
use telebook_server.Store.Memory.Steps.{Step-WellFormed, conflict_closed}
use telebook_server.Service.Sync.{resolve_conflict, resolve_as, win}
use telebook_server.Service.Sync.Histories.{Env, memory_service}
use telebook_server.Service.Sync.Requests.{Request, serve, serve-WellFormed}

module _ {Raw : Type 0} where
  abbrev open_ids : List (MemoryConflict Raw) → List ℕ
  open_ids cs = map (λ k. k.id) (open_among cs)

  -- The first open conflict is the one that is found under its id.
  record IsFirst (i : ℕ) (rest : List ℕ) (lo : ℕ) (cs : List (MemoryConflict Raw)) : Type 0 where
    pub conflict : Conflict Raw
    pub found : find_conflict i cs ≡ ok conflict
    pub status : conflict.status ≡ open_conflict
    pub above : lo < i
    pub left : open_ids (closed i cs) ≡ rest

  open_ids-IsFirst :
      (i : ℕ) (rest : List ℕ) (lo : ℕ) (cs : List (MemoryConflict Raw)) (hi : ℕ)
      → Numbered conflict_number lo cs hi
      → open_ids cs ≡ i ∷ rest
      → IsFirst i rest lo cs
  unfolding open_among closed find_conflict close is_open
  open_ids-IsFirst i rest lo [] hi n h = absurd (cc h)
  open_ids-IsFirst i rest lo (c ∷ cs) hi n h = elim (ConflictStatus-cases c.record_of.status) [
    | inl o ↦
        let same : c.record_of.id ≡ i = cc (rw o at h) in
        let others : open_ids cs ≡ rest = cc (rw o at h) in
        let hit : eqb c.record_of.id i ≡ true = ground arith in
        record {
          conflict = c.record_of;
          found = rw hit refl;
          status = o;
          above = omega (arith, n.0, same);
          left = rw hit others;
        }
    | inr r ↦
        let f = open_ids-IsFirst i rest (suc lo) cs hi (n.1) (rw r at h) in
        let miss : eqb c.record_of.id i ≡ false = ground (arith, f.above, n.0) in
        record {
          conflict = f.conflict;
          found = rw miss f.found;
          status = f.status;
          above = omega (arith, f.above);
          left = rw (miss, r) f.left;
        }
  ]

  -- What the resolutions leave.
  pub record IsDrained (s t : MemorySyncStore Raw) : Type 0 where
    pub none_open : list_open t ≡ []
    pub books : t.books ≡ s.books
    pub entities : t.entities ≡ s.entities
    pub events : t.events ≡ s.events

module _ {Raw : Type 0} (env : Env Raw) where
  abbrev keep_server : ResolveRequest Raw
  keep_server = record { strategy = strategy_keep_server; payload = none }

  -- One resolution after another, by one device.
  unfoldable pub resolve_all : String → List ℕ → MemorySyncStore Raw → MemorySyncStore Raw
  resolve_all device_id [] s = s
  resolve_all device_id (id ∷ ids) s =
      resolve_all device_id ids (resolve_conflict (memory_service env) device_id id keep_server s).1

  -- The resolution of the first open conflict succeeds, closes it, and changes nothing else.
  resolve_first :
      (device_id : String) (i : ℕ) (rest : List ℕ) (s : MemorySyncStore Raw)
      → IsFirst i rest 0 s.conflicts
      → resolve_conflict (memory_service env) device_id i keep_server s
        ≡ (ok tt, record s { conflicts = closed i s.conflicts })
  unfolding resolve_conflict resolve_as win get_conflict mark_resolved put_conflicts
  resolve_first device_id i rest s f =
      rw (f.found, f.status, mark_among-closed i s.conflicts f.conflict f.found f.status) refl

  closed-WellFormed :
      (device_id : String) (i : ℕ) (rest : List ℕ) (s : MemorySyncStore Raw)
      → IsFirst i rest 0 s.conflicts
      → WellFormed s
      → WellFormed (record s { conflicts = closed i s.conflicts })
  unfolding mark_resolved put_conflicts
  closed-WellFormed device_id i rest s f w =
      rw (mark_among-closed i s.conflicts f.conflict f.found f.status) at
        (Step-WellFormed (conflict_closed i device_id s) w)

  resolve_all-IsDrained :
      (device_id : String) (ids : List ℕ) (s : MemorySyncStore Raw)
      → WellFormed s
      → open_ids s.conflicts ≡ ids
      → IsDrained s (resolve_all device_id ids s)
  unfolding resolve_all list_open
  resolve_all-IsDrained device_id [] s w h = record {
    none_open = no_ids (open_among s.conflicts) h;
    books = refl;
    entities = refl;
    events = refl;
  }
    where
      no_ids : (ks : List (Conflict Raw)) → map (λ k. k.id) ks ≡ [] → ks ≡ []
      no_ids [] e = refl
      no_ids (k ∷ ks) e = absurd (cc e)
  resolve_all-IsDrained device_id (i ∷ ids) s w h =
      let f = open_ids-IsFirst i ids 0 s.conflicts s.next_conflict_id w.conflicts h in
      let d =
        resolve_all-IsDrained device_id ids (record s { conflicts = closed i s.conflicts })
          (closed-WellFormed device_id i ids s f w) f.left in
      rw (resolve_first device_id i ids s f) (record {
        none_open = d.none_open;
        books = d.books;
        entities = d.entities;
        events = d.events;
      })

  -- Whatever requests the service has handled from the empty store, a device that resolves every
  -- conflict that is listed, one after another, for the server's version, brings the list to its
  -- end: no conflict is open then, and books, entities and events are as before.
  pub conflicts_drain :
      (device_id : String) (rs : List (Env Raw × Request Raw))
      → IsDrained (serve rs new_memory_sync_store) (
          resolve_all device_id
            (map (λ k. k.id) (list_open (serve rs new_memory_sync_store)))
            (serve rs new_memory_sync_store))
  unfolding list_open
  conflicts_drain device_id rs =
      resolve_all-IsDrained device_id _ (serve rs new_memory_sync_store) (serve-WellFormed rs) refl
