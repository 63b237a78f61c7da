-- ===== src/Api/Files.antt =====
-- internal/api/file_handlers.go: the handlers of the files. A body is none where gin cannot bind
-- it, a number none where it does not parse, a query parameter that is missing is "".
use telebook_server.Prelude.{
  ℕ, String, Bool, false, not, ◌||◌, Option, none, some, List, [], ◌∷◌, length, eqb, ◌==◌,
  if◌then◌else◌,
}
use telebook_server.Prelude.Int.{ℤ, pos, eqz, is_negative}
use telebook_server.Model.Errors.{Error, Result, ok, err}
use telebook_server.Model.File.{FileCheckItem, FileInitUploadResponse, UploadPartMeta}
use telebook_server.Store.Objects.{Byte, Reader}
use telebook_server.Service.File
use telebook_server.Service.File.{FileService, below_one}
use telebook_server.Api.Reply.{
  Reply, success, failure, Handler, validation_error, respond, internal,
}

pub record FileInitUploadRequest : Type 0 where
  pub hash : String
  pub size : ℤ

pub record FileCompleteUploadRequest : Type 0 where
  pub hash : String
  pub upload_id : String
  pub size : ℤ
  pub total_parts : ℤ
  pub parts : List UploadPartMeta

-- The answer to a part: its tag, or that the file is there already.
pub data PartReply : Type 0 where
  part_stored : String → PartReply
  file_complete : PartReply

unfoldable pub on_part : Error → Reply PartReply
on_part Error.file_exists = success file_complete
on_part _ = failure 500 "internal"

unfoldable pub on_complete : {A : Type 0} → Error → Reply A
on_complete Error.upload_not_complete = failure 422 "validation_error"
on_complete _ = failure 500 "internal"

unfoldable pub on_download : {A : Type 0} → Error → Reply A
on_download Error.object_not_found = failure 404 "not_found"
on_download _ = failure 500 "internal"

unfoldable pub lacks_hash : List FileCheckItem → Bool
lacks_hash [] = false
lacks_hash (f ∷ fs) = f.hash == "" || lacks_hash fs

unfoldable pub invalid_parts : List UploadPartMeta → Bool
invalid_parts [] = false
invalid_parts (p ∷ ps) = (below_one p.part_number || p.etag == "") || invalid_parts ps

module _ {S : Type 0} (v : FileService S) where
  unfoldable pub check_files_handler : Option (List FileCheckItem) → Handler S (List FileCheckItem)
  check_files_handler none = validation_error
  check_files_handler (some items) =
      if eqb (length items) 0
      then validation_error
      else if lacks_hash items
      then validation_error
      else respond internal (File.check_files v items)

  unfoldable pub file_direct_upload_handler : String → Option ℤ → Reader → Handler S (Unit {0})
  file_direct_upload_handler hash none body = validation_error
  file_direct_upload_handler hash (some size) body =
      if hash == "" || is_negative size
      then validation_error
      else respond internal (File.direct_upload v hash size body)

  unfoldable pub file_init_upload_handler :
      Option FileInitUploadRequest → Handler S FileInitUploadResponse
  file_init_upload_handler none = validation_error
  file_init_upload_handler (some req) = respond internal (File.init_upload v req.hash req.size)

  unfoldable pub store_part : String → String → ℤ → Result (List Byte) → Handler S PartReply
  store_part hash upload_id part_number (err e) s = (failure 500 "internal", s)
  store_part hash upload_id part_number (ok bytes) s =
      let (r, t) = File.upload_part v hash upload_id part_number bytes s in
      (elim r [ err e ↦ on_part e | ok etag ↦ success (part_stored etag) ], t)

  -- `chunk` is none where the form has no such file, else what opening and reading it gives.
  unfoldable pub file_upload_part_handler :
      String → String → Option ℤ → Option (Result (List Byte)) → Handler S PartReply
  file_upload_part_handler hash upload_id none chunk = validation_error
  file_upload_part_handler hash upload_id (some part_number) none = validation_error
  file_upload_part_handler hash upload_id (some part_number) (some chunk) =
      if below_one part_number
      then validation_error
      else store_part hash upload_id part_number chunk

  unfoldable pub file_complete_upload_handler :
      Option FileCompleteUploadRequest → Handler S (Unit {0})
  file_complete_upload_handler none = validation_error
  file_complete_upload_handler (some req) =
      if below_one req.total_parts || not (eqz (pos (length req.parts)) req.total_parts)
      then validation_error
      else if invalid_parts req.parts
      then validation_error
      else respond on_complete (File.complete_upload v req.hash req.upload_id req.size req.parts)

  unfoldable pub file_download_handler : String → Handler S (List Byte × ℕ)
  file_download_handler hash =
      if hash == "" then validation_error else respond on_download (File.download v hash)
