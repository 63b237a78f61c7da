-- ===== src/Service/Sync/Pulling.antt =====
-- A device that pulls page after page.
use telebook_server.Prelude.{
  ℕ, zero, suc, ◌≤◌, ◌<◌, String, ◌≡◌, refl, ap, ◌∙◌, true, List, [], ◌∷◌, ◌++◌, map, length, take,
  drop, last_or, ltb, Numbered, arith, none, lookup, if◌then◌else◌, take-append-drop,
  length-drop-lt, take_of_length-le, Bool-cases, inl, inr,
}
use telebook_server.Model.Errors.{ok, err}
use telebook_server.Model.Sync.{SyncEvent}
use telebook_server.Store.Memory.{MemorySyncStore, MemoryEvent, new_memory_sync_store}
use telebook_server.Store.Memory.Reads.{update_cursor}
use telebook_server.Store.Memory.Invariant.{WellFormed, event_number}
use telebook_server.Store.Memory.Replay.{replay, delivered, live_payload}
use telebook_server.Store.Memory.Paging.{pending, list_after_cursor-eq}
use telebook_server.Store.Memory.Cursors.{pending_below, pending_after_page}
use telebook_server.Service.Sync.{pull}
use telebook_server.Service.Sync.Histories.{Env, memory_service}
use telebook_server.Service.Sync.Requests.{Request, serve, serve-WellFormed, serve-converged}

module _ {Raw : Type 0} (env : Env Raw) (device_id : String) (limit : ℕ) where
  -- The client's loop: it goes on from the cursor of the answer while there is more, and keeps the
  -- events that it got. The fuel bounds the number of pulls; an error ends the loop.
  unfoldable pub pull_all : ℕ → ℕ → MemorySyncStore Raw → List (SyncEvent Raw)
  pull_all zero cursor s = []
  pull_all (suc fuel) cursor s =
      let (r, t) = pull (memory_service env) device_id cursor limit s in
      elim r [
        | err e ↦ []
        | ok page ↦
            let rest = pull_all fuel page.cursor t in
            if page.has_more then page.events ++ rest else page.events
      ]

  -- One round of the loop, by what is pending.
  pull_all-suc :
      (fuel cursor : ℕ) (s : MemorySyncStore Raw)
      → pull_all (suc fuel) cursor s ≡ (
          let p = pending cursor s.events in
          let last = last_or cursor (map (λ e. e.id) (take limit p)) in
          if ltb limit (length p)
          then take limit p ++ pull_all fuel last (update_cursor device_id last s)
          else take limit p)
  unfolding pull_all pull
  pull_all-suc fuel cursor s = rw (list_after_cursor-eq cursor limit s) refl

  -- The cursor and the state after one pull.
  abbrev next_cursor : ℕ → MemorySyncStore Raw → ℕ
  next_cursor cursor s = last_or cursor (map (λ e. e.id) (take limit (pending cursor s.events)))

  abbrev pulled : ℕ → MemorySyncStore Raw → MemorySyncStore Raw
  pulled cursor s = update_cursor device_id (next_cursor cursor s) s

  -- One round, where the later rounds deliver what is pending for them.
  pull_all-round :
      (fuel cursor hi : ℕ) (s : MemorySyncStore Raw)
      → 1 ≤ limit
      → Numbered event_number 0 s.events hi
      → length (pending cursor s.events) < suc fuel
      → (length (pending (next_cursor cursor s) s.events) < fuel
          → pull_all fuel (next_cursor cursor s) (pulled cursor s)
            ≡ pending (next_cursor cursor s) s.events)
      → pull_all (suc fuel) cursor s ≡ pending cursor s.events
  pull_all-round fuel cursor hi s l n h ih =
      rw (pull_all-suc fuel cursor s) (elim (Bool-cases (ltb limit (length p))) [
        | inl more ↦
            rw more
              (ap (λ r. take limit p ++ r) (ih (shorter more) ∙ after) ∙ take-append-drop limit p)
        | inr all ↦ rw all (take_of_length-le limit p (ground arith))
      ])
    where
      p : List (SyncEvent Raw)
      p = pending cursor s.events

      after : pending (next_cursor cursor s) s.events ≡ drop limit p
      after = pending_after_page limit cursor s.events hi n p refl

      shorter :
          ltb limit (length p) ≡ true → length (pending (next_cursor cursor s) s.events) < fuel
      shorter more = rw after (omega (arith, length-drop-lt limit p l (ground arith), h))

  pull_all-pending :
      (fuel cursor hi : ℕ) (s : MemorySyncStore Raw)
      → 1 ≤ limit
      → Numbered event_number 0 s.events hi
      → length (pending cursor s.events) < fuel
      → pull_all fuel cursor s ≡ pending cursor s.events
  unfolding update_cursor
  pull_all-pending zero cursor hi s l n h = absurd (omega arith)
  pull_all-pending (suc fuel) cursor hi s l n h =
      pull_all-round fuel cursor hi s l n h
        (pull_all-pending fuel (next_cursor cursor s) hi (pulled cursor s) l n)

  length-delivered-le : (es : List (MemoryEvent Raw)) → length (delivered es) ≤ length es
  unfolding delivered
  length-delivered-le [] = omega arith
  length-delivered-le (e ∷ es) = ground (arith, length-delivered-le es)

  -- From the cursor 0, with a limit of at least 1, a device that pulls until there is no more gets
  -- every event with status done or failed once, in the order of the log: as many pulls as there
  -- are events, and one, are enough.
  pub pull_all-delivered :
      (fuel : ℕ) (s : MemorySyncStore Raw)
      → 1 ≤ limit
      → WellFormed s
      → length s.events < fuel
      → pull_all fuel 0 s ≡ delivered s.events
  pull_all-delivered fuel s l w h =
      pull_all-pending fuel 0 s.next_event_id s l w.events
        (rw all (omega (arith, length-delivered-le s.events)))
      ∙ all
    where
      all : pending 0 s.events ≡ delivered s.events
      all = pending_below 0 0 s.events s.next_event_id w.events (omega arith)

  -- So, whatever requests the service has handled from the empty store, a device that pulls from
  -- the cursor 0 until there is no more, with a limit of at least 1 and enough pulls, and applies
  -- what it gets, has exactly the books of the server that are not deleted, with their payloads.
  pub pull_all-converges :
      (rs : List (Env Raw × Request Raw)) (fuel : ℕ) (id : String)
      → 1 ≤ limit
      → length (serve rs new_memory_sync_store).events < fuel
      → replay id none (pull_all fuel 0 (serve rs new_memory_sync_store))
        ≡ live_payload (lookup id (serve rs new_memory_sync_store).books)
  pull_all-converges rs fuel id l h =
      rw (pull_all-delivered fuel (serve rs new_memory_sync_store) l (serve-WellFormed rs) h)
        (serve-converged rs id)
