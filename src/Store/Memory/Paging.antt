-- ===== src/Store/Memory/Paging.antt =====
-- Pages of the event stream: `ListAfterCursor`.
use mathlib.Core.List.{append_assoc, append-nil}
use telebook_server.Prelude.{
  ℕ, zero, suc, ◌+◌, ◌≡◌, ◌≢◌, refl, ◌∙◌, Bool, true, false, not, ◌&&◌, List, [], ◌∷◌, ◌++◌, length,
  length-append, take, ltb, leb, arith, if◌then◌else◌,
}
use telebook_server.Model.Sync.{SyncEvent}
use telebook_server.Store.Memory.{MemorySyncStore, MemoryEvent}
use telebook_server.Store.Memory.Reads.{deliverable, collect_page, list_after_cursor}

-- One round of the loop, where `f` gives the page from what is pending.
round_eq :
    {A B : Type 0} (old unsent full : Bool) (f : B → A) (skipped ended taken : A) (p q : B)
    → skipped ≡ f p
    → (full ≡ true → ended ≡ f q)
    → (full ≡ false → taken ≡ f q)
    → (if old then skipped else if unsent then skipped else if full then ended else taken)
      ≡ f (if old then p else if unsent then p else q)
round_eq true unsent full f skipped ended taken p q s e t = s
round_eq false true full f skipped ended taken p q s e t = s
round_eq false false true f skipped ended taken p q s e t = e refl
round_eq false false false f skipped ended taken p q s e t = t refl

no_room : (limit n : ℕ) → n + 0 ≡ limit → leb limit n ≢ false
no_room limit n h full = ground arith

some_room : (limit n room : ℕ) → n + suc room ≡ limit → leb limit n ≢ true
some_room limit n room h full = ground arith

module _ {Raw : Type 0} where
  -- The events above the cursor that are sent, by filtering the log.
  unfoldable pub pending : ℕ → List (MemoryEvent Raw) → List (SyncEvent Raw)
  unfolding deliverable
  pending cursor [] = []
  pending cursor (e ∷ es) =
      let rest = pending cursor es in
      if ltb cursor e.event.id && deliverable e.status then e.event ∷ rest else rest

  pending-nil : (cursor : ℕ) → pending cursor [] ≡ []
  unfolding pending
  pending-nil cursor = refl

  -- The filter, by the tests of the loop.
  pending-cons :
      (cursor : ℕ) (e : MemoryEvent Raw) (es : List (MemoryEvent Raw))
      → pending cursor (e ∷ es) ≡ (
          if leb e.event.id cursor
          then pending cursor es
          else if not (deliverable e.status)
          then pending cursor es
          else e.event ∷ pending cursor es)
  unfolding pending
  pending-cons cursor e es = ground arith

  abbrev page_of : ℕ → List (SyncEvent Raw) → List (SyncEvent Raw) → List (SyncEvent Raw) × Bool
  page_of room result p = (result ++ take room p, ltb room (length p))

  page_of-full :
      (result : List (SyncEvent Raw)) (e : SyncEvent Raw) (p : List (SyncEvent Raw))
      → (result, true) ≡ page_of 0 result (e ∷ p)
  unfolding take
  page_of-full result e p = ground (arith, append-nil result)

  page_of-cons :
      (room : ℕ) (result : List (SyncEvent Raw)) (e : SyncEvent Raw) (p : List (SyncEvent Raw))
      → page_of room (result ++ e ∷ []) p ≡ page_of (suc room) result (e ∷ p)
  unfolding take
  page_of-cons room result e p = ground (arith, append_assoc result (e ∷ []) (take room p))

  page_of-nil :
      (room : ℕ) (result : List (SyncEvent Raw)) → (result, false) ≡ page_of room result []
  unfolding take
  page_of-nil zero result = ground (arith, append-nil result)
  page_of-nil (suc room) result = ground (arith, append-nil result)

  collect_page-eq :
      (cursor limit room : ℕ) (result : List (SyncEvent Raw)) (es : List (MemoryEvent Raw))
      → length result + room ≡ limit
      → collect_page cursor limit result es ≡ page_of room result (pending cursor es)
  unfolding collect_page
  collect_page-eq cursor limit room result [] h = rw (pending-nil cursor) (page_of-nil room result)
  collect_page-eq cursor limit zero result (e ∷ es) h = rw pending-cons (
      round_eq (leb e.event.id cursor) (not (deliverable e.status)) (leb limit (length result))
        (page_of 0 result) _ _ _ (pending cursor es) (e.event ∷ pending cursor es)
        (collect_page-eq cursor limit zero result es h)
        (λ _. page_of-full result e.event (pending cursor es))
        (λ full. absurd (no_room limit (length result) h full)))
  collect_page-eq cursor limit (suc room) result (e ∷ es) h = rw pending-cons (
      round_eq (leb e.event.id cursor) (not (deliverable e.status)) (leb limit (length result))
        (page_of (suc room) result) _ _ _ (pending cursor es) (e.event ∷ pending cursor es)
        (collect_page-eq cursor limit (suc room) result es h)
        (λ full. absurd (some_room limit (length result) room h full))
        λ _.
          collect_page-eq cursor limit room (result ++ e.event ∷ []) es
            (omega (arith, length-append result (e.event ∷ [])))
          ∙ page_of-cons room result e.event (pending cursor es))

  -- A page holds the first `limit` events above the cursor that are sent, in the order of the log,
  -- and `has_more` says exactly whether there are more than `limit` of them.
  pub list_after_cursor-eq :
      (cursor limit : ℕ) (s : MemorySyncStore Raw)
      → list_after_cursor cursor limit s
        ≡ (take limit (pending cursor s.events), ltb limit (length (pending cursor s.events)))
  unfolding list_after_cursor
  list_after_cursor-eq cursor limit s = collect_page-eq cursor limit limit [] s.events (omega arith)
