-- ===== src/Api/Upload.antt =====
-- internal/api/upload_handlers.go. A parameter of the path or the query that is missing is "".
use telebook_server.Prelude.{
  String, Option, none, some, List, length, ◌||◌, eqb, ◌==◌, if◌then◌else◌,
}
use telebook_server.Model.Errors.{Error}
use telebook_server.Model.Upload.{
  UploadInitBook, UploadInitBookResult, UploadStatusResponse, UploadCompleteResponse,
}
use telebook_server.Service.Upload
use telebook_server.Service.Upload.{UploadService, UploadState}
use telebook_server.Api.Reply.{Reply, failure, Handler, validation_error, respond, internal}

-- The answer to an error of a task. The error of an unknown task, `Error.no_rows`, is another
-- value than `service.ErrUploadNotFound`, for which the code tests.
unfoldable pub on_upload : {A : Type 0} → Error → Reply A
on_upload Error.upload_not_found = failure 404 "not_found"
on_upload _ = failure 500 "internal"

module _ {Raw S : Type 0} (v : UploadService Raw S) where
  unfoldable pub upload_init_handler :
      String → Option (List UploadInitBook) → Handler (UploadState S) (List UploadInitBookResult)
  upload_init_handler device_id none = validation_error
  upload_init_handler device_id (some books) =
      if eqb (length books) 0
      then validation_error
      else respond internal (Upload.init_upload v device_id books)

  unfoldable pub upload_status_handler : String → Handler (UploadState S) UploadStatusResponse
  upload_status_handler uuid =
      if uuid == "" then validation_error else respond on_upload (Upload.status v uuid)

  unfoldable pub upload_file_done_handler : String → String → Handler (UploadState S) (Unit {0})
  upload_file_done_handler uuid hash =
      if uuid == "" || hash == ""
      then validation_error
      else respond internal (Upload.mark_file_done v uuid hash)

  unfoldable pub upload_complete_handler :
      String → String → Handler (UploadState S) UploadCompleteResponse
  upload_complete_handler device_id uuid =
      if uuid == "" then validation_error else respond on_upload (Upload.complete v device_id uuid)

  unfoldable pub upload_abandon_handler : String → Handler (UploadState S) (Unit {0})
  upload_abandon_handler uuid =
      if uuid == "" then validation_error else respond internal (Upload.mark_failed v uuid)
