-- ===== src/Store/Events/Agreement.antt =====
-- The pages of the PostgreSQL store and of the memory store.
use telebook_server.Prelude.{
  ℕ, zero, suc, ◌≡◌, refl, ap, sym, true, false, ◌&&◌, List, [], ◌∷◌, keep, take, length, ltb,
  arith, Bool-cases, inl, inr,
}
use telebook_server.Model.Sync.{SyncEvent}
use telebook_server.Store.Memory.{MemorySyncStore, MemoryEvent, EventStatus}
use telebook_server.Store.Memory.Paging.{pending, list_after_cursor-eq}
use telebook_server.Store.Memory.Reads
use telebook_server.Store.Memory.Reads.{deliverable}
use telebook_server.Store.Events
use telebook_server.Store.Events.{EventTables, selected, cut_page, done_or_failed}

sent-agrees : (s : EventStatus) → done_or_failed s ≡ deliverable s
unfolding done_or_failed deliverable
sent-agrees EventStatus.done = refl
sent-agrees EventStatus.failed = refl
sent-agrees EventStatus.conflict = refl

module _ {Raw : Type 0} where
  selected-pending :
      (cursor : ℕ) (es : List (MemoryEvent Raw)) → selected cursor es ≡ pending cursor es
  unfolding selected pending keep
  selected-pending cursor [] = refl
  selected-pending cursor (e ∷ es) =
      rw (sent-agrees e.status) (elim (Bool-cases (ltb cursor e.event.id && deliverable e.status)) [
        | inl h ↦ rw h (ap (◌∷◌ e.event) (selected-pending cursor es))
        | inr h ↦ rw h (selected-pending cursor es)
      ])

length-take-one_more :
    {A : Type 0} (limit : ℕ) (l : List A)
    → ltb limit (length (take (suc limit) l)) ≡ ltb limit (length l)
unfolding take
length-take-one_more zero [] = refl
length-take-one_more zero (x ∷ l) = ground arith
length-take-one_more (suc n) [] = refl
length-take-one_more (suc n) (x ∷ l) = ground (arith, length-take-one_more n l)

take-one_more :
    {A : Type 0} (limit : ℕ) (l : List A) → take limit (take (suc limit) l) ≡ take limit l
unfolding take
take-one_more zero l = refl
take-one_more (suc n) [] = refl
take-one_more (suc n) (x ∷ l) = ap (◌∷◌ x) (take-one_more n l)

take-all :
    {A : Type 0} (limit : ℕ) (l : List A)
    → ltb limit (length l) ≡ false
    → take (suc limit) l ≡ take limit l
unfolding take
take-all zero [] h = refl
take-all zero (x ∷ l) h = absurd (ground arith)
take-all (suc n) [] h = refl
take-all (suc n) (x ∷ l) h = ap (◌∷◌ x) (take-all n l (ground arith))

module _ {Raw : Type 0} where
  cut_page-eq :
      (limit : ℕ) (l : List (SyncEvent Raw))
      → cut_page limit (take (suc limit) l) ≡ (take limit l, ltb limit (length l))
  unfolding cut_page
  cut_page-eq limit l =
      rw (length-take-one_more limit l) (elim (Bool-cases (ltb limit (length l))) [
        | inl h ↦ rw h (ap (λ x. (x, true)) (take-one_more limit l))
        | inr h ↦ rw h (ap (λ x. (x, false)) (take-all limit l h))
      ])

  -- Over the same events, the PostgreSQL store, which fetches one event more than the limit, and the
  -- memory store, which stops its loop at the limit, give the same pages.
  pub pages_agree :
      (cursor limit : ℕ) (t : EventTables Raw) (s : MemorySyncStore Raw)
      → t.sync_events ≡ s.events
      → Events.list_after_cursor cursor limit t ≡ Reads.list_after_cursor cursor limit s
  unfolding Events.list_after_cursor
  pages_agree cursor limit t s e = rw (selected-pending cursor t.sync_events) (
      rw (cut_page-eq limit (pending cursor t.sync_events))
        (rw e (sym (list_after_cursor-eq cursor limit s))))
