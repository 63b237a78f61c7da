-- ===== src/Api/UploadErrors.antt =====
-- The answers for tasks that are not there.
use telebook_server.Prelude.{String, ◌≡◌, refl, false, none, lookup, ◌==◌}
use telebook_server.Service.Upload
use telebook_server.Service.Upload.{UploadService, UploadState}
use telebook_server.Service.Upload.Outcomes.{complete-unknown}
use telebook_server.Api.Reply.{failure}
use telebook_server.Api.Upload.{upload_status_handler, upload_complete_handler, on_upload}
use telebook_server.Store.Uploads.Marking.{get_task-none}

module _ {Raw S : Type 0} (v : UploadService Raw S) where
  -- A client that asks for the progress of an upload that the server does not know, or wants to
  -- complete it, gets an internal error, not the answer that there is none; nothing changes.
  pub unknown_upload_is_internal :
      (device_id uuid : String) (s : UploadState S)
      → (uuid == "") ≡ false
      → lookup uuid s.uploads.tasks ≡ none
      → (upload_status_handler v uuid s ≡ (failure 500 "internal", s))
        × (upload_complete_handler v device_id uuid s ≡ (failure 500 "internal", s))
  unfolding upload_status_handler upload_complete_handler on_upload Upload.status
  unknown_upload_is_internal device_id uuid s n e = (
    rw n (rw (get_task-none v.scan uuid s.uploads e) refl),
    rw n (rw (complete-unknown v device_id uuid s e) refl),
  )
