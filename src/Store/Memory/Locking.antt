-- ===== src/Store/Memory/Locking.antt =====
-- The optimistic lock of `ApplyBookChange`.
use telebook_server.Prelude.{
  ℕ, ◌+◌, String, ◌≡◌, ◌≢◌, refl, ◌∙◌, inl, inr, true, false, Option, none, some, List, [], ◌∷◌,
  ◌++◌, lookup, insert, lookup-insert, is_some, arith, eq_refl, ◌==◌, Bool-cases,
}
use telebook_server.Prelude.Int.{ℤ, eq_pos, eq_pos→eq}
use telebook_server.Model.Book.{RawMessage, Time}
use telebook_server.Model.Sync.{Change, ChangeOutcome, Reason, op_delete}
use telebook_server.Model.Conflict.{Conflict}
use telebook_server.Store.Memory.{MemorySyncStore, MemoryBook, MemoryConflict, EventStatus}
use telebook_server.Store.Memory.Log.{append_event, append_conflict}
use telebook_server.Store.Memory.Books.{apply_book_change, apply_to_book, changed_book}
use telebook_server.Store.Memory.Conflicts.{list_open, open_among}

eq_pos_once : (a : ℤ) (n : ℕ) → eq_pos a n ≡ true → eq_pos a (n + 1) ≡ false
eq_pos_once a n h = rw (eq_pos→eq a n h) (ground arith)

module _ {Raw : Type 0} where
  open_among-append :
      (cs ds : List (MemoryConflict Raw)) → open_among (cs ++ ds) ≡ open_among cs ++ open_among ds
  unfolding open_among
  open_among-append [] ds = refl
  open_among-append (c ∷ cs) ds = ground (arith, open_among-append cs ds)

  -- What a refused change leaves.
  pub record IsRefused (c : Change Raw) (s : MemorySyncStore Raw)
      (r : ChangeOutcome × MemorySyncStore Raw) : Type 0 where
    pub accepted : r.0.accepted ≡ false
    pub reason : r.0.reason ≡ Reason.conflict
    pub books : r.1.books ≡ s.books
    pub listed :
        (k : Conflict Raw) × (list_open (r.1) ≡ list_open s ++ k ∷ [])
        × (k.local_payload ≡ c.payload)
        × (k.id ≡ r.0.conflict_id)

  append_conflict-IsRefused :
      (c : Change Raw) (device_id : String) (rev : ℕ) (p : RawMessage Raw) (now : Time)
      (s : MemorySyncStore Raw)
      → IsRefused c s (append_conflict c device_id rev p now s)
  unfolding append_conflict list_open open_among
  append_conflict-IsRefused c device_id rev p now s = record {
    accepted = refl;
    reason = refl;
    books = refl;
    listed = (_, open_among-append s.conflicts _, refl, refl);
  }

  stale-IsRefused :
      (c : Change Raw) (source device_id : String) (now : Time) (s : MemorySyncStore Raw)
      (book : MemoryBook Raw)
      → lookup c.change_id s.change_ids ≡ none
      → lookup c.entity_id s.books ≡ some book
      → eq_pos c.base_revision book.revision ≡ false
      → IsRefused c s (apply_book_change c source device_id now s)
  unfolding apply_book_change apply_to_book
  stale-IsRefused c source device_id now s book fresh found stale =
      rw (fresh, found, stale) (append_conflict-IsRefused c device_id _ _ now s)

  -- The row that a change which moves the revision writes.
  abbrev new_row : Option (MemoryBook Raw) → Change Raw → MemoryBook Raw
  new_row none c = record { revision = 1; deleted = false; payload = c.payload }
  new_row (some book) c = changed_book c book

  revision-changed_book :
      (c : Change Raw) (book : MemoryBook Raw) → (changed_book c book).revision ≡ book.revision + 1
  unfolding changed_book
  revision-changed_book c book = ground arith

  -- A change that moved the revision has written its row, its base is not the row's revision, and
  -- of the change ids only its own is new.
  record IsMoved (o : Option (MemoryBook Raw)) (c : Change Raw) (s t : MemorySyncStore Raw)
      : Type 0 where
    pub row : lookup c.entity_id t.books ≡ some (new_row o c)
    pub stale : eq_pos c.base_revision (new_row o c).revision ≡ false
    pub ids :
        (j : String) → (c.change_id == j) ≡ false → lookup j t.change_ids ≡ lookup j s.change_ids

  appended-IsMoved :
      (o : Option (MemoryBook Raw)) (c : Change Raw) (device_id : String) (rev : ℕ) (now : Time)
      (s : MemorySyncStore Raw)
      → eq_pos c.base_revision (new_row o c).revision ≡ false
      → IsMoved o c s
          (append_event c device_id rev EventStatus.done now
            (record s { books = insert c.entity_id (new_row o c) s.books })).1
  unfolding append_event
  appended-IsMoved o c device_id rev now s stale = record {
    row = simp (lookup-insert, eq_refl);
    stale = stale;
    ids = λ j ne. simp (lookup-insert, ne);
  }

  apply_to_book-IsMoved :
      (o : Option (MemoryBook Raw)) (c : Change Raw) (device_id : String) (now : Time)
      (s : MemorySyncStore Raw)
      → (apply_to_book o c device_id now s).0.revision ≢ 0
      → IsMoved o c s (apply_to_book o c device_id now s).1
  unfolding apply_to_book
  apply_to_book-IsMoved none c device_id now s h = elim (Bool-cases (c.op == op_delete)) [
    | inl e ↦ absurd (rw e at h refl)
    | inr e ↦ elim (Bool-cases (eq_pos c.base_revision 0)) [
      | inl z ↦
          rw (e, z) (appended-IsMoved none c device_id 1 now s (eq_pos_once c.base_revision 0 z))
      | inr z ↦ absurd (rw (e, z) at h refl)
    ]
  ]
  apply_to_book-IsMoved (some b) c device_id now s h =
      elim (Bool-cases (eq_pos c.base_revision b.revision)) [
        | inl z ↦ rw z (
            appended-IsMoved (some b) c device_id (b.revision + 1) now s
              (rw (revision-changed_book c b) (eq_pos_once c.base_revision b.revision z)))
        | inr z ↦ absurd (unfold append_conflict in (rw z at h) refl)
      ]

  apply_book_change-IsMoved :
      (c : Change Raw) (source device_id : String) (now : Time) (s : MemorySyncStore Raw)
      → (apply_book_change c source device_id now s).0.revision ≢ 0
      → IsMoved (lookup c.entity_id s.books) c s (apply_book_change c source device_id now s).1
  unfolding apply_book_change
  apply_book_change-IsMoved c source device_id now s h =
      elim (Bool-cases (is_some (lookup c.change_id s.change_ids))) [
        | inl e ↦ absurd (rw e at h refl)
        | inr e ↦
            rw e (apply_to_book-IsMoved (lookup c.entity_id s.books) c device_id now s (rw e at h))
      ]

  -- Of two changes of one book from the same base revision, under different new change ids, the
  -- second is refused once the first has moved the revision: it reports a conflict, the books stay
  -- as the first one left them, and the open conflicts get one more entry, under the reported id,
  -- with the payload of the second.
  pub no_lost_update :
      (c d : Change Raw) (source device_id other : String) (now later : Time)
      (s : MemorySyncStore Raw)
      → d.entity_id ≡ c.entity_id
      → d.base_revision ≡ c.base_revision
      → (c.change_id == d.change_id) ≡ false
      → lookup d.change_id s.change_ids ≡ none
      → (apply_book_change c source device_id now s).0.revision ≢ 0
      → IsRefused d
          (apply_book_change c source device_id now s).1
          (apply_book_change d source other later (apply_book_change c source device_id now s).1)
  no_lost_update c d source device_id other now later s same base ne fresh moved =
      stale-IsRefused d source other later _ (new_row (lookup c.entity_id s.books) c)
        (m.ids d.change_id ne ∙ fresh) (rw same m.row) (rw base m.stale)
    where
      m : IsMoved (lookup c.entity_id s.books) c s (apply_book_change c source device_id now s).1
      m = apply_book_change-IsMoved c source device_id now s moved
