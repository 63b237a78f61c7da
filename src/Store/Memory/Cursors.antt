-- ===== src/Store/Memory/Cursors.antt =====
-- Where a pull leaves the cursor, and the events above it.
use telebook_server.Prelude.{
  ℕ, zero, suc, ◌≤◌, ◌<◌, ◌≡◌, refl, List, [], ◌∷◌, map, take, drop, last_or, Numbered, arith,
}
use telebook_server.Model.Sync.{SyncEvent}
use telebook_server.Store.Memory.{MemoryEvent}
use telebook_server.Store.Memory.Replay.{delivered}
use telebook_server.Store.Memory.Invariant.{event_number}
use telebook_server.Store.Memory.Paging.{pending}

module _ {Raw : Type 0} where
  -- A cursor below all numbers hides nothing.
  pub pending_below :
      (cursor lo : ℕ) (es : List (MemoryEvent Raw)) (hi : ℕ)
      → Numbered event_number lo es hi
      → cursor ≤ lo
      → pending cursor es ≡ delivered es
  unfolding pending delivered
  pending_below cursor lo [] hi n h = refl
  pending_below cursor lo (e ∷ es) hi n h =
      ground (arith, pending_below cursor (suc lo) es hi n.1 (omega arith))

  pending_head_above :
      (cursor lo : ℕ) (es : List (MemoryEvent Raw)) (hi : ℕ) (x : SyncEvent Raw)
      (rest : List (SyncEvent Raw))
      → Numbered event_number lo es hi
      → pending cursor es ≡ x ∷ rest
      → lo < x.id
  unfolding pending
  pending_head_above cursor lo [] hi x rest n p = cc
  pending_head_above cursor lo (e ∷ es) hi x rest n p =
      ground (arith, pending_head_above cursor (suc lo) es hi x rest n.1)

  -- The first of the pending events as the cursor leaves the others.
  pending_after_head :
      (cursor lo : ℕ) (es : List (MemoryEvent Raw)) (hi : ℕ) (x : SyncEvent Raw)
      (rest : List (SyncEvent Raw))
      → Numbered event_number lo es hi
      → pending cursor es ≡ x ∷ rest
      → pending x.id es ≡ rest
  unfolding pending
  pending_after_head cursor lo [] hi x rest n p = cc
  pending_after_head cursor lo (e ∷ es) hi x rest n p = ground (
    arith,
    pending_after_head cursor (suc lo) es hi x rest n.1,
    pending_head_above cursor (suc lo) es hi x rest n.1,
    pending_below cursor (suc lo) es hi n.1,
    pending_below x.id (suc lo) es hi n.1,
  )

  pub pending_after_page :
      (count cursor : ℕ) (es : List (MemoryEvent Raw)) (hi : ℕ)
      → Numbered event_number 0 es hi
      → (p : List (SyncEvent Raw)) → pending cursor es ≡ p
      → pending (last_or cursor (map (λ e. e.id) (take count p))) es ≡ drop count p
  unfolding take drop last_or
  pending_after_page zero cursor es hi n p e = e
  pending_after_page (suc count) cursor es hi n [] e = e
  pending_after_page (suc count) cursor es hi n (x ∷ rest) e =
      pending_after_page count x.id es hi n rest (pending_after_head cursor 0 es hi x rest n e)
