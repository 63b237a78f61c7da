-- ===== src/Service/Sync.antt =====
-- internal/service/sync_service.go over the interfaces of its stores. `file_verifier` and
-- `lib_version` are none where they are nil; `compute_version` is `ComputeLibraryVersion`, which
-- Store.Library has.
pub mod Histories
pub mod Requests
pub mod Pulling
pub mod Resolution
pub mod Backends
pub mod Failures
pub mod Draining
pub mod Replaying
pub mod Answering
use telebook_server.Prelude.{
  ℕ, String, Bool, true, false, not, ◌&&◌, Option, none, some, List, [], ◌∷◌, ◌++◌, is_some, length,
  last_or, eqb, ◌==◌, if◌then◌else◌, map,
}
use telebook_server.Model.Errors.{Error, Result, ok, err}
use telebook_server.Model.Action.{Action, pure, raise, lift, attempt, gets, continue, ◌>>=◌, ◌>>◌}
use telebook_server.Model.Book.{
  RawMessage, Codec, BookFileMeta, BookPayload, BookSnapshotItem, BookHistory, BookRestoreResult,
  elements,
}
use telebook_server.Model.Sync.{
  Change, ChangeOutcome, ChangeResult, SyncEvent, PullResult, SyncStatus, Reason, op_delete,
  op_restore, tag_manual, entity_book,
}
use telebook_server.Model.Conflict.{
  Conflict, ConflictStatus, ResolveRequest, open_conflict, resolved, strategy_keep_local,
  strategy_keep_server, strategy_manual,
}
use telebook_server.Store.Interfaces.{SyncStores, LibraryVersionStore}
use telebook_server.Store.Library.{LibraryBook}

pub record LibraryStatus : Type 0 where
  pub book_count : ℕ
  pub book_version : String

pub record SyncService (Raw S : Type 0) : Type 0 where
  pub stores : SyncStores Raw S
  pub codec : Codec Raw
  pub file_verifier : Option (List BookFileMeta → Result Bool)
  pub lib_version : Option (LibraryVersionStore S)
  pub compute_version : List LibraryBook → String

module _ {Raw S : Type 0} (v : SyncService Raw S) where
  -- `json.Unmarshal` of a snapshot of the library.
  unfoldable pub read_library : RawMessage Raw → Result (List (BookSnapshotItem Raw))
  read_library none = err Error.bad_json
  read_library (some raw) = elim (v.codec.read_items raw) [
    | none ↦ err Error.bad_json
    | some items ↦ ok items
  ]

  -- Files that do not parse count as no files.
  unfoldable pub library_book : BookSnapshotItem Raw → LibraryBook
  library_book item = record {
    uuid = item.uuid;
    name = item.name;
    files = elim item.files [
      | none ↦ []
      | some raw ↦ elim (v.codec.read_files raw) [ none ↦ [] | some files ↦ elements files ]
    ];
  }

  unfoldable pub refresh_with : LibraryVersionStore S → Action S (Unit {0})
  refresh_with meta = do
    snapshot ← v.stores.snapshot_library
    items ← lift (read_library snapshot)
    meta.set_book_version (v.compute_version (map library_book items))

  unfoldable pub refresh_library_version : Action S (Unit {0})
  refresh_library_version = elim v.lib_version [ none ↦ pure tt | some meta ↦ refresh_with meta ]

  unfoldable pub current_version : Action S String
  current_version = elim v.lib_version [ none ↦ pure "" | some meta ↦ meta.get_book_version ]

  unfoldable pub get_library_status : Action S LibraryStatus
  get_library_status = do
    snapshot ← v.stores.snapshot_library
    items ← lift (read_library snapshot)
    version ← current_version
    pure (record { book_count = length items; book_version = version })

  -- `ListHistory`, `RecordHistory`, `ListConflicts` and `GetLibraryBooks` hand the call on.
  unfoldable pub list_history : ℕ → Action S (List (BookHistory Raw))
  list_history limit = v.stores.list_history limit

  unfoldable pub record_history : String → String → RawMessage Raw → Action S ℕ
  record_history op_type tag snapshot = v.stores.insert_snapshot op_type tag snapshot

  unfoldable pub list_conflicts : Action S (List (Conflict Raw))
  list_conflicts = v.stores.list_open

  unfoldable pub get_library_books : Action S (RawMessage Raw)
  get_library_books = v.stores.snapshot_library

  -- A snapshot that fails is not recorded, and a record that fails is not reported.
  unfoldable pub record_restore : Result (RawMessage Raw) → Action S (Unit {0})
  record_restore (err e) = pure tt
  record_restore (ok snap) = do
    attempt (v.stores.insert_snapshot op_restore tag_manual snap)
    pure tt

  unfoldable pub restore_book : String → ℕ → Action S BookRestoreResult
  restore_book device_id history_id = do
    h ← v.stores.get_history history_id
    result ← v.stores.restore_library h.payload device_id
    snap ← attempt v.stores.snapshot_library
    record_restore snap
    pure result

  -- Whether the files of a change are to be verified, and which.
  unfoldable pub files_to_verify : Change Raw → List BookFileMeta
  files_to_verify c =
      if c.entity_type == entity_book && not (c.op == op_delete)
      then elim c.payload [
        | none ↦ []
        | some raw ↦ let p = v.codec.read_payload raw in if p.1 then elements (p.0.files) else []
      ]
      else []

  -- False: a file is missing or incomplete.
  unfoldable pub files_complete : Change Raw → Result Bool
  files_complete c = elim v.file_verifier [
    | none ↦ ok true
    | some verify ↦ elim (files_to_verify c) [ [] ↦ ok true | f ∷ fs ↦ verify (f ∷ fs) ]
  ]

  unfoldable pub apply_routed : Change Raw → String → String → Action S ChangeOutcome
  apply_routed c source device_id =
      if c.entity_type == entity_book
      then v.stores.apply_book_change c source device_id
      else v.stores.apply_change c device_id

  unfoldable pub result_of : Change Raw → ChangeOutcome → ChangeResult
  result_of c o = record {
    entity_type = c.entity_type;
    entity_id = c.entity_id;
    accepted = o.accepted;
    revision = o.revision;
    event_id = o.event_id;
    reason = o.reason;
    conflict_id = o.conflict_id;
  }

  unfoldable pub incomplete_result : Change Raw → ChangeResult
  incomplete_result c = record {
    entity_type = c.entity_type;
    entity_id = c.entity_id;
    accepted = false;
    revision = 0;
    event_id = 0;
    reason = Reason.files_incomplete;
    conflict_id = 0;
  }

  -- The body of the loop of `Push`.
  unfoldable pub push_one : String → String → Change Raw → Action S ChangeResult
  push_one device_id source c = do
    complete ← lift (files_complete c)
    if not complete
        then pure (incomplete_result c)
        else do outcome ← apply_routed c source device_id; pure (result_of c outcome)

  unfoldable pub push_all :
      String → String → List (Change Raw) → List ChangeResult → Action S (List ChangeResult)
  push_all device_id source [] results = pure results
  push_all device_id source (c ∷ cs) results = do
    r ← push_one device_id source c
    push_all device_id source cs (results ++ r ∷ [])

  -- A refresh that fails does not fail the push.
  unfoldable pub push : String → String → List (Change Raw) → Action S (List ChangeResult)
  push device_id source changes = do
    results ← push_all device_id source changes []
    if eqb (length results) 0
        then pure results
        else do attempt refresh_library_version; pure results

  unfoldable pub pull : String → ℕ → ℕ → Action S (PullResult Raw)
  pull device_id cursor limit = do
    page ← v.stores.list_after_cursor cursor limit
    let last = last_or cursor (map (λ e. e.id) (page.0))
    v.stores.update_cursor device_id last
    pure (record { cursor = last; has_more = page.1; events = page.0 })

  unfoldable pub status : String → Action S SyncStatus
  status device_id = do
    cursor ← v.stores.get_cursor device_id
    counts ← v.stores.count_by_status
    conflicts ← v.stores.list_open
    pure (record {
      cursor = cursor;
      pending_count = counts.0;
      conflict_count = length conflicts;
      failed_count = counts.2;
    })

  -- The authoritative write, by the type of the entity.
  unfoldable pub force_upsert : Conflict Raw → RawMessage Raw → String → Action S (Unit {0})
  force_upsert conflict payload device_id =
      if conflict.entity_type == entity_book
      then v.stores.force_upsert_book conflict.entity_id payload device_id >> pure tt
      else v.stores.force_upsert conflict.entity_type conflict.entity_id payload device_id
        >> pure tt

  -- The switch on the strategy.
  unfoldable pub win : Conflict Raw → ResolveRequest Raw → String → Action S (Unit {0})
  win conflict req device_id =
      if req.strategy == strategy_keep_server
      then pure tt
      else if req.strategy == strategy_keep_local
      then (if is_some conflict.local_payload
          then force_upsert conflict conflict.local_payload device_id
          else raise Error.no_local_payload)
      else if req.strategy == strategy_manual
      then (if is_some req.payload
          then force_upsert conflict req.payload device_id
          else raise Error.payload_required)
      else raise Error.invalid_strategy

  unfoldable pub resolve_as :
      ConflictStatus → Conflict Raw → String → ℕ → ResolveRequest Raw → Action S (Unit {0})
  resolve_as resolved conflict device_id conflict_id req = raise Error.conflict_resolved
  resolve_as open_conflict conflict device_id conflict_id req =
      win conflict req device_id >> v.stores.mark_resolved conflict_id device_id

  unfoldable pub resolve_conflict : String → ℕ → ResolveRequest Raw → Action S (Unit {0})
  resolve_conflict device_id conflict_id req = do
    conflict ← v.stores.get_conflict conflict_id
    resolve_as conflict.status conflict device_id conflict_id req
