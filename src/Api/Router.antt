-- ===== src/Api/Router.antt =====
-- internal/api/router.go: the table of routes, which the web framework serves. A group has the
-- prefix of its paths, and whether `AuthMiddleware` stands before its handlers.
pub mod Protection
use Prim.Native.String.{◌++◌ as ◌<>◌}
use telebook_server.Prelude.{String, Bool, true, false, List, [], ◌∷◌, ◌++◌, map, if◌then◌else◌}

pub data Method : Type 0 where
  get post any : Method

-- The handlers that routes name.
pub data Endpoint : Type 0 where
  ping register refresh me push pull sync_status library_status library_books : Endpoint
  list_history record_history restore_book list_conflicts resolve_conflict : Endpoint
  check_files file_direct_upload file_init_upload file_upload_part : Endpoint
  file_complete_upload file_download files_not_configured : Endpoint
  upload_init upload_status upload_file_done upload_complete upload_abandon : Endpoint

pub record Route : Type 0 where
  pub method : Method
  pub path : String
  pub has_auth : Bool
  pub endpoint : Endpoint

abbrev pub route : Method → String → Endpoint → Route
route method path endpoint = record {
  method = method;
  path = path;
  has_auth = false;
  endpoint = endpoint;
}

-- `Group`, and `Use` where there is a middleware.
unfoldable pub group : String → Bool → List Route → List Route
group prefix uses_auth routes =
    map
      (λ r. record {
        method = r.method;
        path = prefix <> r.path;
        has_auth = if uses_auth then true else r.has_auth;
        endpoint = r.endpoint;
      })
      routes

abbrev pub sync_routes : List Route
sync_routes =
    route get "/devices/me" me
    ∷ route post "/sync/push" push
    ∷ route get "/sync/pull" pull
    ∷ route get "/sync/status" sync_status
    ∷ route get "/sync/library" library_status
    ∷ route get "/sync/books" library_books
    ∷ route get "/books/history" list_history
    ∷ route post "/books/history" record_history
    ∷ route post "/books/restore" restore_book
    ∷ route get "/conflicts" list_conflicts
    ∷ route post "/conflicts/:id/resolve" resolve_conflict
    ∷ []

-- Without MinIO there is no file service.
unfoldable pub file_routes : Bool → List Route
file_routes true =
    route post "/files/check" check_files
    ∷ route post "/files/upload/direct" file_direct_upload
    ∷ route post "/files/upload/init" file_init_upload
    ∷ route post "/files/upload" file_upload_part
    ∷ route post "/files/upload/complete" file_complete_upload
    ∷ route get "/files/download" file_download
    ∷ []
file_routes false = route any "/files/*path" files_not_configured ∷ []

unfoldable pub upload_routes : Bool → List Route
upload_routes true =
    route post "/upload/init" upload_init
    ∷ route get "/upload/status/:uuid" upload_status
    ∷ route post "/upload/file/:uuid/done" upload_file_done
    ∷ route post "/upload/complete/:uuid" upload_complete
    ∷ route post "/upload/abandon/:uuid" upload_abandon
    ∷ []
upload_routes false = route any "/upload/*path" files_not_configured ∷ []

-- By whether the services of files and of uploads are there.
unfoldable pub new_router : Bool → Bool → List Route
unfolding group file_routes upload_routes
new_router files uploads =
    route get "/ping" ping
    ∷ group "/api/v1" false (
        route post "/auth/register" register
        ∷ route post "/auth/refresh" refresh
        ∷ group "" true (sync_routes ++ file_routes files ++ upload_routes uploads))
