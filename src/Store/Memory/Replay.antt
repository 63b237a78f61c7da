-- ===== src/Store/Memory/Replay.antt =====
-- What a client makes of the event stream: the books that it has after it applied the events that
-- the server sends, in order; and the server's own view of its library.
use telebook_server.Prelude.{
  ℕ, String, ◌≡◌, refl, true, false, Option, none, some, List, [], ◌∷◌, ◌++◌, lookup, insert,
  lookup-insert, ◌&&◌, arith, eq_iff, ◌==◌, if◌then◌else◌,
}
use telebook_server.Model.Book.{RawMessage, Time}
use telebook_server.Model.Sync.{Change, SyncEvent, op_delete, entity_book}
use telebook_server.Store.Memory.{MemorySyncStore, MemoryBook, MemoryEvent, EventStatus}
use telebook_server.Store.Memory.Log.{append_event, append_conflict}
use telebook_server.Store.Memory.Reads.{deliverable}

module _ {Raw : Type 0} where
  -- The payload of a book that is there and not deleted.
  unfoldable pub live_payload : Option (MemoryBook Raw) → Option (RawMessage Raw)
  live_payload none = none
  live_payload (some book) = if book.deleted then none else some book.payload

  -- One event at the client, for the book `id`.
  unfoldable pub replay_event :
      String → Option (RawMessage Raw) → SyncEvent Raw → Option (RawMessage Raw)
  replay_event id v e =
      if e.entity_type == entity_book && e.entity_id == id
      then (if e.op == op_delete then none else some e.payload)
      else v

  unfoldable pub replay :
      String → Option (RawMessage Raw) → List (SyncEvent Raw) → Option (RawMessage Raw)
  replay id v [] = v
  replay id v (e ∷ es) = replay id (replay_event id v e) es

  -- The events that pulls send.
  unfoldable pub delivered : List (MemoryEvent Raw) → List (SyncEvent Raw)
  unfolding deliverable
  delivered [] = []
  delivered (e ∷ es) =
      let rest = delivered es in if deliverable e.status then e.event ∷ rest else rest

  pub replay-append :
      (id : String) (v : Option (RawMessage Raw)) (xs ys : List (SyncEvent Raw))
      → replay id v (xs ++ ys) ≡ replay id (replay id v xs) ys
  unfolding replay
  replay-append id v [] ys = refl
  replay-append id v (x ∷ xs) ys = replay-append id (replay_event id v x) xs ys

  pub delivered-append :
      (xs ys : List (MemoryEvent Raw)) → delivered (xs ++ ys) ≡ delivered xs ++ delivered ys
  unfolding delivered
  delivered-append [] ys = refl
  delivered-append (x ∷ xs) ys = ground (arith, delivered-append xs ys)

  -- A client that applied every event has the server's books, with their payloads.
  pub record Converged (s : MemorySyncStore Raw) : Type 0 where
    pub at_book :
        (id : String) → replay id none (delivered s.events) ≡ live_payload (lookup id s.books)

  -- The event of a change of a book, whatever the row was before.
  pub append_event-Converged :
      (c : Change Raw) (device_id : String) (revision : ℕ) (now : Time) (s : MemorySyncStore Raw)
      (row : MemoryBook Raw)
      → (c.entity_type == entity_book) ≡ true
      → live_payload (some row) ≡ (if c.op == op_delete then none else some c.payload)
      → Converged s
      → Converged
          (append_event c device_id revision EventStatus.done now
            (record s { books = insert c.entity_id row s.books })).1
  unfolding append_event delivered replay replay_event
  append_event-Converged c device_id revision now s row book e v = record {
    at_book = λ id.
        rw (delivered-append, replay-append, lookup-insert, v.at_book id)
          (ground (arith, eq_iff c.entity_id id));
  }

  -- An event of another entity.
  pub append_other-Converged :
      (c : Change Raw) (device_id : String) (revision : ℕ) (now : Time) (s : MemorySyncStore Raw)
      → (c.entity_type == entity_book) ≡ false
      → Converged s
      → Converged (append_event c device_id revision EventStatus.done now s).1
  unfolding append_event delivered replay replay_event
  append_other-Converged c device_id revision now s other v = record {
    at_book = λ id. rw (delivered-append, replay-append, v.at_book id) (ground arith);
  }

  -- A conflict is not sent.
  pub append_conflict-Converged :
      (c : Change Raw) (device_id : String) (rev : ℕ) (p : RawMessage Raw) (now : Time)
      (s : MemorySyncStore Raw)
      → Converged s
      → Converged (append_conflict c device_id rev p now s).1
  unfolding append_conflict delivered replay replay_event
  append_conflict-Converged c device_id rev p now s v = record {
    at_book = λ id. rw (delivered-append, replay-append, v.at_book id) (ground arith);
  }
