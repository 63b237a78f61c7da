-- ===== src/Tests/SyncRuns.antt =====
-- The synchronisation service over the memory store, at concrete requests.
use telebook_server.Store.Memory.Log.{append_event}
use telebook_server.Store.Memory.Books.{apply_book_change, apply_to_book}
use telebook_server.Service.Sync.{
  result_of, refresh_library_version, apply_routed, files_to_verify, files_complete, push_one,
  push_all, push,
}
use telebook_server.Service.Sync.Pulling.{pull_all-delivered, pull_all}
use telebook_server.Store.Memory.Growth.{Grows}
use telebook_server.Prelude.{
  refl, insert, arith, ◌<◌, length, String, ◌≡◌, true, none, some, List, [], ◌∷◌, lookup,
}
use telebook_server.Prelude.Int.{ℤ, pos}
use telebook_server.Model.Errors.{ok}
use telebook_server.Model.Sync.{Change, op_upsert, entity_book}
use telebook_server.Model.Conflict.{strategy_keep_local}
use telebook_server.Store.Memory.{MemorySyncStore, new_memory_sync_store}
use telebook_server.Store.Memory.Invariant.{WellFormed}
use telebook_server.Store.Memory.Replay.{replay, delivered, live_payload}
use telebook_server.Service.Sync.Histories.{Env}
use telebook_server.Service.Sync.Requests.{
  serve-Grows, handle, Request, pushes, resolves, serve, serve-WellFormed, serve-converged,
}
use telebook_server.Tests.Sample.{Doc, sample_codec, one_page}

abbrev pub sample_env : Env Doc
sample_env = record {
  codec = sample_codec;
  order = λ l. l;
  now = 7;
  file_verifier = some (λ fs. ok true);
  compute_version = λ bs. "";
}

abbrev pub upsert : String → String → ℤ → Change Doc
upsert change_id id base = record {
  change_id = change_id;
  entity_type = entity_book;
  entity_id = id;
  op = op_upsert;
  base_revision = base;
  payload = one_page change_id;
}

-- Two devices create and change one book; the second change is late and is resolved.
abbrev pub sample_requests : List (Env Doc × Request Doc)
sample_requests =
    (sample_env, pushes "phone" "auto" (upsert "c1" "b" (pos 0) ∷ []))
    ∷ (sample_env, pushes "tablet" "auto" (upsert "c2" "b" (pos 1) ∷ []))
    ∷ (sample_env, pushes "phone" "auto" (upsert "c3" "b" (pos 1) ∷ []))
    ∷ (sample_env, resolves "phone" 1 (record { strategy = strategy_keep_local; payload = none }))
    ∷ []

serve-WellFormed_example : WellFormed (serve sample_requests new_memory_sync_store)
serve-WellFormed_example = serve-WellFormed sample_requests

serve-converged_example :
    replay "b" none (delivered (serve sample_requests new_memory_sync_store).events)
    ≡ live_payload (lookup "b" (serve sample_requests new_memory_sync_store).books)
serve-converged_example = serve-converged sample_requests "b"

abbrev sample_store : MemorySyncStore Doc
sample_store = serve sample_requests new_memory_sync_store

serve-Grows_example : Grows new_memory_sync_store (serve sample_requests new_memory_sync_store)
serve-Grows_example = serve-Grows sample_requests new_memory_sync_store

-- The store after one push.
abbrev first : MemorySyncStore Doc
first =
    serve ((sample_env, pushes "phone" "auto" (upsert "c1" "b" (pos 0) ∷ [])) ∷ [])
      new_memory_sync_store

length-first : length first.events ≡ 1
unfolding serve handle push push_all push_one files_complete files_to_verify apply_routed
    refresh_library_version result_of apply_book_change apply_to_book append_event lookup insert
    new_memory_sync_store
length-first = refl

first_short : length first.events < 3
first_short = omega (arith, length-first)

pull_all-delivered_example : pull_all sample_env "tablet" 1 3 0 first ≡ delivered first.events
pull_all-delivered_example =
    pull_all-delivered sample_env "tablet" 1 3 first (omega arith)
      (serve-WellFormed ((sample_env, pushes "phone" "auto" (upsert "c1" "b" (pos 0) ∷ [])) ∷ []))
      first_short
