-- ===== src/Tests/StoreRuns.antt =====
-- The memory store and the resolution of conflicts, at concrete states and requests.
use telebook_server.Service.Sync.Draining.{conflicts_drain, resolve_all, IsDrained}
use telebook_server.Store.Memory.Restoration.{restore_library_exact, wanted}
use telebook_server.Store.Memory.Growth.{revision_of}
use telebook_server.Store.Memory.Paging.{list_after_cursor-eq, pending}
use telebook_server.Service.Sync.Resolution.{keep_local_wins, resolve_once}
use telebook_server.Store.Memory.Invariant.{new-WellFormed}
use telebook_server.Service.Sync.Replaying.{routed, replay_is_duplicate}
use telebook_server.Store.Memory.Conflicts.{list_open, find_conflict, get_conflict}
use telebook_server.Service.Sync.Pulling.{pull_all-converges, pull_all}
use telebook_server.Service.Sync.{
  result_of, refresh_library_version, apply_routed, files_to_verify, files_complete, push_one,
  push_all, push, win, resolve_as, resolve_conflict,
}
use telebook_server.Store.Memory.Locking.{no_lost_update, IsRefused}
use telebook_server.Service.Sync.Requests.{serve-WellFormed, pushes, Request, handle, serve}
use telebook_server.Service.Sync.Histories.{memory_service, Env}
use telebook_server.Store.Memory.Restore.{restore_library, read_snapshot}
use telebook_server.Store.Memory.Replay.{live_payload, replay}
use telebook_server.Model.Book.{BookRestoreResult, BookSnapshotItem}
use telebook_server.Store.Memory.Reads.{list_after_cursor}
use telebook_server.Prelude.{
  map, ap, ◌+◌, ltb, take, insert, String, ◌≡◌, ◌≢◌, refl, true, none, some, List, [], ◌∷◌, ◌<◌,
  length, lookup, arith,
}
use telebook_server.Prelude.Int.{pos}
use telebook_server.Model.Errors.{Error, ok, err}
use telebook_server.Model.Sync.{Reason, entity_book, zero_outcome}
use telebook_server.Model.Conflict.{ResolveRequest, Conflict, open_conflict, strategy_keep_local}
use telebook_server.Store.Memory.{MemorySyncStore, new_memory_sync_store}
use telebook_server.Store.Memory.Books.{apply_book_change, apply_to_book}
use telebook_server.Store.Memory.Log.{append_event, append_conflict}
use telebook_server.Tests.Sample.{docs_of, files_doc, items_doc, Doc, sample_codec, one_page, page}
use telebook_server.Tests.SyncRuns.{sample_env, upsert}

-- One change after another of one book by two devices, the second one late.
abbrev late_requests : List (Env Doc × Request Doc)
late_requests =
    (sample_env, pushes "phone" "auto" (upsert "c1" "b" (pos 0) ∷ []))
    ∷ (sample_env, pushes "tablet" "auto" (upsert "c2" "b" (pos 0) ∷ []))
    ∷ []

abbrev pub late_store : MemorySyncStore Doc
late_store = serve late_requests new_memory_sync_store

length-late : length late_store.events < 4
unfolding serve handle push push_all push_one files_complete files_to_verify apply_routed
    refresh_library_version result_of apply_book_change apply_to_book append_event append_conflict
    lookup insert new_memory_sync_store
length-late = omega arith

pull_all-converges_example :
    replay "b" none (pull_all sample_env "desk" 1 4 0 late_store)
    ≡ live_payload (lookup "b" late_store.books)
pull_all-converges_example =
    pull_all-converges sample_env "desk" 1 late_requests 4 "b" (omega arith) length-late

list_after_cursor-eq_example :
    list_after_cursor 1 1 late_store
    ≡ (take 1 (pending 1 late_store.events), ltb 1 (length (pending 1 late_store.events)))
list_after_cursor-eq_example = list_after_cursor-eq 1 1 late_store

first_moved :
    (apply_book_change
      (upsert "c1" "b" (pos 0))
      "auto"
      "phone"
      7
      (new_memory_sync_store {Raw = Doc})).0.revision
    ≢ 0
unfolding apply_book_change apply_to_book append_event new_memory_sync_store lookup
first_moved = omega arith

first_logged :
    (apply_book_change
      (upsert "c1" "b" (pos 0))
      "auto"
      "phone"
      7
      (new_memory_sync_store {Raw = Doc})).0.event_id
    ≢ 0
unfolding apply_book_change apply_to_book append_event new_memory_sync_store lookup
first_logged = omega arith

second_fresh : lookup "c2" (new_memory_sync_store {Raw = Doc}).change_ids ≡ none
unfolding new_memory_sync_store lookup
second_fresh = refl

abbrev after_first : MemorySyncStore Doc
after_first = (apply_book_change (upsert "c1" "b" (pos 0)) "auto" "phone" 7 new_memory_sync_store).1

no_lost_update_example :
    IsRefused
      (upsert "c2" "b" (pos 0))
      after_first
      (apply_book_change (upsert "c2" "b" (pos 0)) "auto" "tablet" 8 after_first)
no_lost_update_example =
    no_lost_update (upsert "c1" "b" (pos 0)) (upsert "c2" "b" (pos 0)) "auto" "phone" "tablet" 7 8
      new_memory_sync_store refl refl refl second_fresh first_moved

-- Another device creates a second book in between.
abbrev between : List (Env Doc × Request Doc)
between = (sample_env, pushes "desk" "auto" (upsert "c9" "d" (pos 0) ∷ [])) ∷ []

first_routed :
    routed sample_env (upsert "c1" "b" (pos 0)) "auto" "phone" new_memory_sync_store
    ≡ (ok (record zero_outcome { accepted = true; revision = 1; event_id = 1 }), after_first)
unfolding apply_routed apply_book_change apply_to_book append_event lookup insert
    new_memory_sync_store
first_routed = refl

replay_is_duplicate_example :
    routed sample_env (upsert "c1" "b" (pos 0)) "manual" "tablet" (
      serve between
        (routed sample_env (upsert "c1" "b" (pos 0)) "auto" "phone" new_memory_sync_store).1)
    ≡ (
      ok (record zero_outcome { accepted = true; reason = Reason.duplicate }),
      serve between
          (routed sample_env (upsert "c1" "b" (pos 0)) "auto" "phone" new_memory_sync_store).1,
    )
replay_is_duplicate_example =
    replay_is_duplicate sample_env sample_env (upsert "c1" "b" (pos 0)) "auto" "phone" "manual"
      "tablet" new_memory_sync_store
      (record zero_outcome { accepted = true; revision = 1; event_id = 1 }) between new-WellFormed
      (ap (λ x. x.0) first_routed) (λ e. absurd (omega arith))

abbrev keep_local : ResolveRequest Doc
keep_local = record { strategy = strategy_keep_local; payload = none }

abbrev bad_strategy : ResolveRequest Doc
bad_strategy = record { strategy = "both"; payload = none }

-- The conflict of the late change.
abbrev late_conflict : Conflict Doc
late_conflict = record {
  id = 1;
  entity_type = entity_book;
  entity_id = "b";
  local_payload = one_page "c2";
  server_payload = one_page "c1";
  server_revision = 1;
  status = open_conflict;
  created_at = 8;
}

abbrev after_second : MemorySyncStore Doc
after_second = (apply_book_change (upsert "c2" "b" (pos 0)) "auto" "tablet" 8 after_first).1

late_found : get_conflict 1 after_second ≡ ok late_conflict
unfolding apply_book_change apply_to_book append_event append_conflict new_memory_sync_store lookup
    insert get_conflict find_conflict
late_found = refl

kept :
    (t : MemorySyncStore Doc) × (resolve_conflict
        (memory_service sample_env)
        "phone"
        1
        keep_local
        after_second
      ≡ (ok tt, t))
    × (live_payload (lookup "b" t.books) ≡ some (one_page "c2"))
    × (revision_of (lookup "b" t.books) ≡ revision_of (lookup "b" after_second.books) + 1)
kept =
    keep_local_wins sample_env "phone" 1 keep_local after_second late_conflict _ late_found refl
      refl refl refl

resolved_first :
    (resolve_conflict (memory_service sample_env) "phone" 1 keep_local after_second).0 ≡ ok tt
resolved_first = ap (λ x. x.0) kept.1

resolve_once_example :
    resolve_conflict
      (memory_service sample_env)
      "desk"
      1
      bad_strategy
      (resolve_conflict (memory_service sample_env) "phone" 1 keep_local after_second).1
    ≡ (
      err Error.conflict_resolved,
      (resolve_conflict (memory_service sample_env) "phone" 1 keep_local after_second).1,
    )
resolve_once_example =
    resolve_once sample_env "phone" "desk" 1 keep_local bad_strategy after_second resolved_first

refused :
    (resolve_conflict (memory_service sample_env) "phone" 1 bad_strategy after_second).0
    ≡ err Error.invalid_strategy
unfolding resolve_conflict resolve_as win apply_book_change apply_to_book append_event
    append_conflict new_memory_sync_store lookup insert get_conflict find_conflict
refused = refl

-- A library of one book.
abbrev one_item : List (BookSnapshotItem Doc)
one_item =
    record {
      uuid = "a";
      name = "A";
      current_page = pos 2;
      cover_hash = "";
      files = some (files_doc (some (page "p1" ∷ [])));
      revision = 3;
    }
    ∷ []

one_read : read_snapshot sample_codec (some (items_doc (docs_of one_item))) ≡ ok one_item
unfolding read_snapshot
one_read = refl

restore_library_exact_example :
    (result : BookRestoreResult) × (t : MemorySyncStore Doc) × (restore_library sample_codec
        (λ l. l)
        (some (items_doc (docs_of one_item)))
        "phone"
        9
        late_store
      ≡ (ok result, t))
    × (result.restored ≡ length one_item)
    × ((id : String) → live_payload (lookup id t.books) ≡ wanted sample_codec id none one_item)
restore_library_exact_example =
    restore_library_exact sample_codec (λ l. l) (some (items_doc (docs_of one_item))) one_item
      "phone" 9 late_store (λ id ids. refl) (serve-WellFormed late_requests) one_read

conflicts_drain_example :
    IsDrained late_store
      (resolve_all sample_env "desk" (map (λ k. k.id) (list_open late_store)) late_store)
conflicts_drain_example = conflicts_drain sample_env "desk" late_requests
