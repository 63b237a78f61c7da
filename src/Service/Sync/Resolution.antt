-- ===== src/Service/Sync/Resolution.antt =====
-- `ResolveConflict` over the memory store.
use telebook_server.Prelude.{
  arith, ◌+◌, true, some, lookup, lookup-insert, eq_refl, ap, ℕ, String, ◌≡◌, refl, ◌⊎◌, inl, inr,
  is_some, ◌==◌, if◌then◌else◌, if_rule, ◌∙◌,
}
use telebook_server.Model.Errors.{Error, Result, ok, err, Result-cases}
use telebook_server.Model.Action.{Action, raise}
use telebook_server.Model.Book.{RawMessage}
use telebook_server.Model.Sync.{entity_book}
use telebook_server.Model.Conflict.{
  Conflict, ConflictStatus, ResolveRequest, open_conflict, resolved, strategy_keep_local,
  strategy_keep_server, strategy_manual,
}
use telebook_server.Store.Memory.{MemorySyncStore}
use telebook_server.Store.Memory.Log.{append_event}
use telebook_server.Store.Memory.Entities
use telebook_server.Store.Memory.Books.{force_upsert_book, write_book_row, forced_book}
use telebook_server.Store.Memory.Conflicts.{get_conflict, mark_resolved, put_conflicts}
use telebook_server.Store.Memory.Closing.{closed, mark_among-closed, find_conflict-closed}
use telebook_server.Store.Memory.Growth.{revision_of}
use telebook_server.Store.Memory.Replay.{live_payload}
use telebook_server.Service.Sync.{resolve_conflict, SyncService, resolve_as, win, force_upsert}
use telebook_server.Service.Sync.Histories.{Env, memory_service}

module _ {Raw : Type 0} (env : Env Raw) where
  abbrev v : SyncService Raw (MemorySyncStore Raw)
  v = memory_service env

  -- The action fails and changes nothing, or succeeds and leaves the conflicts alone.
  abbrev IsClean : MemorySyncStore Raw → Action (MemorySyncStore Raw) (Unit {0}) → Type 0
  IsClean s m =
      ((e : Error) × (m s ≡ (err e, s)))
      ⊎ ((t : MemorySyncStore Raw) × (m s ≡ (ok tt, t)) × (t.conflicts ≡ s.conflicts))

  force_upsert-IsClean :
      (k : Conflict Raw) (p : RawMessage Raw) (device_id : String) (s : MemorySyncStore Raw)
      → IsClean s (force_upsert v k p device_id)
  unfolding force_upsert force_upsert_book write_book_row Entities.force_upsert append_event
  force_upsert-IsClean k p device_id s =
      if_rule (IsClean s) (k.entity_type == entity_book) (λ _. inr (_, refl, refl))
        (λ _. inr (_, refl, refl))

  upsert_or-IsClean :
      (p : RawMessage Raw) (e : Error) (k : Conflict Raw) (device_id : String)
      (s : MemorySyncStore Raw)
      → IsClean s (if is_some p then force_upsert v k p device_id else raise e)
  upsert_or-IsClean p e k device_id s =
      if_rule (IsClean s) (is_some p) (λ _. force_upsert-IsClean k p device_id s)
        (λ _. inl (e, refl))

  win-IsClean :
      (k : Conflict Raw) (req : ResolveRequest Raw) (device_id : String) (s : MemorySyncStore Raw)
      → IsClean s (win v k req device_id)
  unfolding win
  win-IsClean k req device_id s =
      if_rule (IsClean s) (req.strategy == strategy_keep_server) (λ _. inr (s, refl, refl))
        λ _.
          if_rule (IsClean s) (req.strategy == strategy_keep_local)
            (λ _. upsert_or-IsClean k.local_payload _ k device_id s)
            λ _.
              if_rule (IsClean s) (req.strategy == strategy_manual)
                (λ _. upsert_or-IsClean req.payload _ k device_id s) (λ _. inl (_, refl))

  -- A conflict that was read as open can be closed in any state with the same conflicts.
  mark-closes :
      (id : ℕ) (device_id : String) (s t : MemorySyncStore Raw) (k : Conflict Raw)
      → get_conflict id s ≡ ok k
      → k.status ≡ open_conflict
      → t.conflicts ≡ s.conflicts
      → mark_resolved id device_id t ≡ (ok tt, record t { conflicts = closed id t.conflicts })
  unfolding mark_resolved get_conflict put_conflicts
  mark-closes id device_id s t k f o same = rw (mark_among-closed id t.conflicts k (rw same f) o)

  -- The outcome of a resolution that begins with an open conflict.
  abbrev Outcome : ℕ → MemorySyncStore Raw → Result (Unit {0}) × MemorySyncStore Raw → Type 0
  Outcome id s r =
      ((e : Error) × (r ≡ (err e, s)))
      ⊎ ((t : MemorySyncStore Raw) × (r ≡ (ok tt, record t { conflicts = closed id s.conflicts })))

  resolve_open-Outcome :
      (k : Conflict Raw) (device_id : String) (id : ℕ) (req : ResolveRequest Raw)
      (s : MemorySyncStore Raw)
      → get_conflict id s ≡ ok k
      → k.status ≡ open_conflict
      → Outcome id s (resolve_as v open_conflict k device_id id req s)
  unfolding resolve_as
  resolve_open-Outcome k device_id id req s f o = elim (win-IsClean k req device_id s) [
    | inl (e, w) ↦ inl (e, rw w)
    | inr (t, w, same) ↦ inr (t, rw w (mark-closes id device_id s t k f o same ∙ rw same))
  ]

  -- A resolution either fails and changes nothing, or the conflict was open and is closed.
  record IsClosed (id : ℕ) (t : MemorySyncStore Raw) : Type 0 where
    pub found : (k : Conflict Raw) × (get_conflict id t ≡ ok k) × (k.status ≡ resolved)

  abbrev Shape : ℕ → MemorySyncStore Raw → Result (Unit {0}) × MemorySyncStore Raw → Type 0
  Shape id s r =
      ((e : Error) × (r ≡ (err e, s)))
      ⊎ ((t : MemorySyncStore Raw) × (r ≡ (ok tt, t)) × IsClosed id t)

  resolve_as-Shape :
      (st : ConflictStatus) (k : Conflict Raw) (device_id : String) (id : ℕ)
      (req : ResolveRequest Raw) (s : MemorySyncStore Raw)
      → get_conflict id s ≡ ok k
      → k.status ≡ st
      → Shape id s (resolve_as v st k device_id id req s)
  resolve_as-Shape resolved k device_id id req s f e =
      inl (Error.conflict_resolved, unfold resolve_as in refl)
  resolve_as-Shape open_conflict k device_id id req s f e =
      elim (resolve_open-Outcome k device_id id req s f e) [
        | inl (e, w) ↦ inl (e, w)
        | inr (t, w) ↦ inr (
          record t { conflicts = closed id s.conflicts },
          w,
          record {
            found = (
              record k { status = resolved },
              unfold get_conflict in find_conflict-closed id s.conflicts k f,
              refl,
            );
          },
        )
      ]

  resolve-cases :
      (device_id : String) (id : ℕ) (req : ResolveRequest Raw) (s : MemorySyncStore Raw)
      → Shape id s (resolve_conflict v device_id id req s)
  unfolding resolve_conflict
  resolve-cases device_id id req s = elim (Result-cases (get_conflict id s)) [
    | inl (e, f) ↦ inl (e, rw f)
    | inr (k, f) ↦ rw f (resolve_as-Shape k.status k device_id id req s f refl)
  ]

  -- A resolution that fails, for whatever reason, leaves the store as it was.
  pub resolve_error_unchanged :
      (device_id : String) (id : ℕ) (req : ResolveRequest Raw) (s : MemorySyncStore Raw) (e : Error)
      → (resolve_conflict v device_id id req s).0 ≡ err e
      → (resolve_conflict v device_id id req s).1 ≡ s
  resolve_error_unchanged device_id id req s e h = elim (resolve-cases device_id id req s) [
    | inl (_, r) ↦ rw r
    | inr (t, r, c) ↦ cc (ap (λ x. x.0) r)
  ]

  closed_is_refused :
      (device_id : String) (id : ℕ) (req : ResolveRequest Raw) (t : MemorySyncStore Raw)
      → IsClosed id t
      → resolve_conflict v device_id id req t ≡ (err Error.conflict_resolved, t)
  unfolding resolve_conflict resolve_as
  closed_is_refused device_id id req t c =
      let (k, f, st) = c.found in rw f (ap (λ x. resolve_as v x k device_id id req t) st)

  -- A conflict can be resolved once: after a resolution that succeeded, another one of the same
  -- conflict, by any device with any strategy, is refused as resolved and changes nothing.
  pub resolve_once :
      (device_id other : String) (id : ℕ) (req again : ResolveRequest Raw) (s : MemorySyncStore Raw)
      → (resolve_conflict v device_id id req s).0 ≡ ok tt
      → resolve_conflict v other id again (resolve_conflict v device_id id req s).1
        ≡ (err Error.conflict_resolved, (resolve_conflict v device_id id req s).1)
  resolve_once device_id other id req again s h = elim (resolve-cases device_id id req s) [
    | inl (e, r) ↦ cc (ap (λ x. x.0) r)
    | inr (t, r, c) ↦ rw r (closed_is_refused other id again t c)
  ]

  -- The store after the authoritative write of a book.
  abbrev forced : Conflict Raw → Raw → String → MemorySyncStore Raw → MemorySyncStore Raw
  forced k p device_id s = (force_upsert_book k.entity_id (some p) device_id env.now s).1

  win_keep_local :
      (device_id : String) (req : ResolveRequest Raw) (s : MemorySyncStore Raw) (k : Conflict Raw)
      (p : Raw)
      → (k.entity_type == entity_book) ≡ true
      → k.local_payload ≡ some p
      → req.strategy ≡ strategy_keep_local
      → win v k req device_id s ≡ (ok tt, forced k p device_id s)
  unfolding win force_upsert
  win_keep_local device_id req s k p book local strategy = rw strategy (rw local (rw book))

  keep_local_open :
      (device_id : String) (id : ℕ) (req : ResolveRequest Raw) (s : MemorySyncStore Raw)
      (k : Conflict Raw) (p : Raw)
      → get_conflict id s ≡ ok k
      → k.status ≡ open_conflict
      → (k.entity_type == entity_book) ≡ true
      → k.local_payload ≡ some p
      → req.strategy ≡ strategy_keep_local
      → resolve_as v open_conflict k device_id id req s
        ≡ (ok tt, record (forced k p device_id s) { conflicts = closed id s.conflicts })
  unfolding resolve_as force_upsert_book write_book_row append_event
  keep_local_open device_id id req s k p f st book local strategy =
      rw (win_keep_local device_id req s k p book local strategy)
        (mark-closes id device_id s (forced k p device_id s) k f st refl)

  live-forced :
      (k : Conflict Raw) (p : Raw) (device_id : String) (s : MemorySyncStore Raw)
      → live_payload (lookup k.entity_id (forced k p device_id s).books) ≡ some (some p)
  unfolding force_upsert_book write_book_row append_event forced_book live_payload
  live-forced k p device_id s = simp (lookup-insert, eq_refl) (ground arith)

  revision-forced :
      (k : Conflict Raw) (p : Raw) (device_id : String) (s : MemorySyncStore Raw)
      → revision_of (lookup k.entity_id (forced k p device_id s).books)
        ≡ revision_of (lookup k.entity_id s.books) + 1
  unfolding force_upsert_book write_book_row append_event forced_book
  revision-forced k p device_id s = simp (lookup-insert, eq_refl) (ground arith)

  pub keep_local_wins :
      (device_id : String) (id : ℕ) (req : ResolveRequest Raw) (s : MemorySyncStore Raw)
      (k : Conflict Raw) (p : Raw)
      → get_conflict id s ≡ ok k
      → k.status ≡ open_conflict
      → (k.entity_type == entity_book) ≡ true
      → k.local_payload ≡ some p
      → req.strategy ≡ strategy_keep_local
      → (t : MemorySyncStore Raw) × (resolve_conflict v device_id id req s ≡ (ok tt, t))
        × (live_payload (lookup k.entity_id t.books) ≡ some (some p))
        × (revision_of (lookup k.entity_id t.books) ≡ revision_of (lookup k.entity_id s.books) + 1)
  unfolding resolve_conflict
  keep_local_wins device_id id req s k p f st book local strategy = (
    record (forced k p device_id s) { conflicts = closed id s.conflicts },
    rw f (
        ap (λ x. resolve_as v x k device_id id req s) st
        ∙ keep_local_open device_id id req s k p f st book local strategy),
    live-forced k p device_id s,
    revision-forced k p device_id s,
  )
