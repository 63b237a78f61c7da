-- ===== src/Api/Sync.antt =====
-- internal/api/handlers.go and internal/api/file_handlers.go: the handlers of the synchronisation. A
-- body is none where gin cannot bind it, a number none where it does not parse.
use telebook_server.Prelude.{
  is_some, ℕ, String, Bool, true, false, not, ◌&&◌, ◌||◌, Option, none, some, List, [], ◌∷◌, length,
  eqb, ltb, ◌==◌, if◌then◌else◌,
}
use telebook_server.Prelude.Int.{ℤ, pos, negsuc}
use telebook_server.Model.Errors.{Error}
use telebook_server.Model.Book.{RawMessage, BookHistory, BookRestoreResult}
use telebook_server.Model.Sync.{Change, ChangeResult, PullResult, SyncStatus, op_upsert, op_delete}
use telebook_server.Model.Conflict.{Conflict, ResolveRequest}
use telebook_server.Service.Sync
use telebook_server.Service.Sync.{SyncService, LibraryStatus}
use telebook_server.Api.Reply.{Reply, failure, Handler, validation_error, respond, internal}

abbrev pub sync_source_auto : String
sync_source_auto = "auto"

abbrev pub sync_source_manual : String
sync_source_manual = "manual"

pub record PushRequest (Raw : Type 0) : Type 0 where
  pub source : String
  pub changes : List (Change Raw)

pub record RecordHistoryRequest (Raw : Type 0) : Type 0 where
  pub op_type : String
  pub tag : String
  pub snapshot : RawMessage Raw

-- `validateChange`: whether it finds no error.
unfoldable pub validate_change : {Raw : Type 0} → Change Raw → Bool
validate_change ch =
    if ch.change_id == ""
    then false
    else if ch.entity_type == ""
    then false
    else if ch.entity_id == ""
    then false
    else if not (ch.op == op_upsert) && not (ch.op == op_delete)
    then false
    else true

unfoldable pub validate_all : {Raw : Type 0} → List (Change Raw) → Bool
validate_all [] = true
validate_all (ch ∷ chs) = let rest = validate_all chs in if validate_change ch then rest else false

-- A source that is not given is `auto`.
unfoldable pub source_or_auto : String → String
source_or_auto source = if source == "" then sync_source_auto else source

unfoldable pub on_restore : {A : Type 0} → Error → Reply A
on_restore Error.history_not_found = failure 404 "not_found"
on_restore _ = failure 500 "internal"

-- The `switch` of `ResolveConflictHandler`, at whether the request has no payload.
unfoldable pub on_resolve : {A : Type 0} → Bool → Error → Reply A
on_resolve no_payload Error.conflict_not_found = failure 404 "not_found"
on_resolve no_payload Error.conflict_resolved = failure 409 "conflict_resolved"
on_resolve no_payload Error.invalid_strategy = failure 422 "validation_error"
on_resolve no_payload _ =
    if no_payload then failure 422 "validation_error" else failure 500 "internal"

-- A negative id is 0 here: no entry has either.
unfoldable pub id_of : ℤ → ℕ
id_of (pos id) = id
id_of (negsuc n) = 0

-- A limit above 1000 is 1000.
unfoldable pub clamp_limit : ℕ → ℕ
clamp_limit limit = if ltb 1000 limit then 1000 else limit

module _ {Raw S : Type 0} (v : SyncService Raw S) where
  unfoldable pub push_handler : String → Option (PushRequest Raw) → Handler S (List ChangeResult)
  push_handler device_id none = validation_error
  push_handler device_id (some req) =
      let source = source_or_auto req.source in
      if not (source == sync_source_auto) && not (source == sync_source_manual)
      then validation_error
      else if eqb (length req.changes) 0
      then validation_error
      else if not (validate_all req.changes)
      then validation_error
      else respond internal (Sync.push v device_id source req.changes)

  unfoldable pub pull_handler : String → Option ℤ → Option ℤ → Handler S (PullResult Raw)
  pull_handler device_id (some (pos cursor)) (some (pos limit)) =
      if ltb limit 1
      then validation_error
      else respond internal (Sync.pull v device_id cursor (clamp_limit limit))
  pull_handler device_id _ _ = validation_error

  unfoldable pub sync_status_handler : String → Handler S SyncStatus
  sync_status_handler device_id = respond internal (Sync.status v device_id)

  unfoldable pub list_history_handler : Option ℤ → Handler S (List (BookHistory Raw))
  list_history_handler (some (pos limit)) =
      if ltb limit 1 || ltb 1000 limit
      then validation_error
      else respond internal (Sync.list_history v limit)
  list_history_handler _ = validation_error

  unfoldable pub record_history_handler : Option (RecordHistoryRequest Raw) → Handler S ℕ
  record_history_handler none = validation_error
  record_history_handler (some req) =
      respond internal (Sync.record_history v req.op_type req.tag req.snapshot)

  unfoldable pub restore_book_handler : String → Option ℤ → Handler S BookRestoreResult
  restore_book_handler device_id none = validation_error
  restore_book_handler device_id (some history_id) =
      respond on_restore (Sync.restore_book v device_id (id_of history_id))

  unfoldable pub library_status_handler : Handler S LibraryStatus
  library_status_handler = respond internal (Sync.get_library_status v)

  unfoldable pub library_books_handler : Handler S (RawMessage Raw)
  library_books_handler = respond internal (Sync.get_library_books v)

  unfoldable pub list_conflicts_handler : Handler S (List (Conflict Raw))
  list_conflicts_handler = respond internal (Sync.list_conflicts v)

  unfoldable pub resolve_conflict_handler :
      String → Option ℤ → Option (ResolveRequest Raw) → Handler S (Unit {0})
  resolve_conflict_handler device_id (some (pos id)) (some req) =
      if ltb id 1
      then validation_error
      else respond (on_resolve (not (is_some req.payload)))
          (Sync.resolve_conflict v device_id id req)
  resolve_conflict_handler device_id _ _ = validation_error
