-- ===== src/Tests/ApiRuns.antt =====
-- The handlers of the synchronisation, at concrete requests.
use telebook_server.Api.Acceptance.{push_handler_answers}
use telebook_server.Service.Sync.Answering.{answered, entity_of}
use telebook_server.Model.Sync.{ChangeResult}
use telebook_server.Store.Files.{upsert_meta}
use telebook_server.Api.Uploaded.{direct_upload_is_found}
use telebook_server.Api.UploadErrors.{unknown_upload_is_internal}
use telebook_server.Tests.FileRuns.{two_bytes}
use telebook_server.Service.File.{object_key, has_size, put_and_register}
use telebook_server.Tests.UploadRuns.{no_uploads, sample_uploads}
use telebook_server.Service.File.Memory.{memory_files}
use telebook_server.Store.Objects.{object_size, read_limited, put_read, Reader}
use telebook_server.Api.Upload.{upload_complete_handler, upload_status_handler}
use telebook_server.Api.Files.{check_files_handler, file_direct_upload_handler}
use telebook_server.Api.Validation.{
  IsValid, push_handler_checks, Pushes, pull_handler_bounded, resolve_handler_unchanged,
}
use telebook_server.Api.Reply.{success, failure}
use telebook_server.Model.Sync.{entity_book, PullResult}
use telebook_server.Store.Memory.Reads.{collect_page, list_after_cursor}
use telebook_server.Store.Memory.Conflicts.{find_conflict, get_conflict}
use telebook_server.Model.Conflict.{strategy_keep_server, ResolveRequest}
use telebook_server.Prelude.{
  map, List, arith, eq_iff, inl, sym, ◌≢◌, ◌==◌, take, true, lookup, last_or, false, String, ◌≡◌,
  ◌⊎◌, ◌≤◌, refl, none, some, [], ◌∷◌, length,
}
use telebook_server.Prelude.Int.{pos}
use telebook_server.Service.File
use telebook_server.Store.Objects
use telebook_server.Service.Sync
use telebook_server.Service.Sync.Histories.{memory_service}
use telebook_server.Store.Memory.{new_memory_sync_store}
use telebook_server.Tests.Sample.{Doc}
use telebook_server.Tests.SyncRuns.{sample_env, upsert}
use telebook_server.Api.Sync.{
  sync_source_auto, source_or_auto, clamp_limit, on_resolve, PushRequest, push_handler,
  pull_handler, resolve_conflict_handler,
}

-- A push without a source.
abbrev one_change : PushRequest Doc
one_change = record { source = ""; changes = upsert "c1" "b" (pos 0) ∷ [] }

push_handler_checks_example :
    (push_handler (memory_service sample_env) "phone" (some one_change) new_memory_sync_store
      ≡ (failure 422 "validation_error", new_memory_sync_store))
    ⊎ Pushes
        (memory_service sample_env)
        "phone"
        (some one_change)
        new_memory_sync_store
        (push_handler (memory_service sample_env) "phone" (some one_change) new_memory_sync_store)
push_handler_checks_example =
    push_handler_checks (memory_service sample_env) "phone" (some one_change) new_memory_sync_store

abbrev no_events : PullResult Doc
no_events = record { cursor = 4; has_more = false; events = [] }

pulled_none :
    (pull_handler
      (memory_service sample_env)
      "phone"
      (some (pos 4))
      (some (pos 5000))
      new_memory_sync_store).0
    ≡ success no_events
unfolding pull_handler Sync.pull new_memory_sync_store list_after_cursor collect_page last_or
    clamp_limit
pulled_none = refl

pull_handler_bounded_example : length no_events.events ≤ 1000
pull_handler_bounded_example =
    pull_handler_bounded sample_env "phone" (some (pos 4)) (some (pos 5000)) new_memory_sync_store
      no_events pulled_none

abbrev keep_server : ResolveRequest Doc
keep_server = record { strategy = strategy_keep_server; payload = none }

not_there :
    (resolve_conflict_handler
      (memory_service sample_env)
      "phone"
      (some (pos 1))
      (some keep_server)
      new_memory_sync_store).0
    ≡ failure 404 "not_found"
unfolding resolve_conflict_handler Sync.resolve_conflict new_memory_sync_store get_conflict
    find_conflict on_resolve
not_there = refl

resolve_handler_unchanged_example :
    (resolve_conflict_handler
      (memory_service sample_env)
      "phone"
      (some (pos 1))
      (some keep_server)
      new_memory_sync_store).1
    ≡ new_memory_sync_store
resolve_handler_unchanged_example =
    resolve_handler_unchanged sample_env "phone" (some (pos 1)) (some keep_server)
      new_memory_sync_store 404 "not_found" not_there

nothing_known : lookup "u" no_uploads.uploads.tasks ≡ none
unfolding lookup
nothing_known = refl

unknown_upload_is_internal_example :
    (upload_status_handler sample_uploads "u" no_uploads ≡ (failure 500 "internal", no_uploads))
    × (upload_complete_handler sample_uploads "phone" "u" no_uploads
        ≡ (failure 500 "internal", no_uploads))
unknown_upload_is_internal_example =
    unknown_upload_is_internal sample_uploads "phone" "u" no_uploads refl nothing_known

abbrev three_bytes : Reader
three_bytes = record { content = 1 ∷ 2 ∷ 3 ∷ []; fails = false }

direct_stored :
    (file_direct_upload_handler memory_files "h" (some (pos 3)) three_bytes two_bytes).0
    ≡ success tt
unfolding file_direct_upload_handler File.direct_upload put_and_register Objects.put_object put_read
    read_limited object_size has_size lookup object_key upsert_meta take
direct_stored = refl

direct_upload_is_found_example :
    check_files_handler memory_files
      (some (record { hash = "h"; size = pos 3 } ∷ []))
      (file_direct_upload_handler memory_files "h" (some (pos 3)) three_bytes two_bytes).1
    ≡ (
      success [],
      (file_direct_upload_handler memory_files "h" (some (pos 3)) three_bytes two_bytes).1,
    )
direct_upload_is_found_example =
    direct_upload_is_found "h" (pos 3) three_bytes two_bytes direct_stored

not_empty : (t : String) → (t == "") ≡ false → t ≢ ""
not_empty t n e = cc (sym n, (eq_iff t "").1 e)

one-IsValid : IsValid (upsert "c1" "b" (pos 0))
one-IsValid = record {
  change_id = not_empty "c1" refl;
  entity_type = not_empty entity_book refl;
  entity_id = not_empty "b" refl;
  op = inl refl;
}

auto_source : source_or_auto "" ≡ sync_source_auto
unfolding source_or_auto
auto_source = refl

push_handler_answers_example :
    (rs : List ChangeResult) × ((push_handler
        (memory_service sample_env)
        "phone"
        (some one_change)
        new_memory_sync_store).0
      ≡ success rs)
    × (map answered rs ≡ map entity_of one_change.changes)
push_handler_answers_example =
    push_handler_answers sample_env "phone" one_change new_memory_sync_store (λ fs. (true, refl))
      (omega arith) (one-IsValid, tt) (inl auto_source)
