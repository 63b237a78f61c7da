-- ===== src/Service/File.antt =====
-- internal/service/file_service.go over the interfaces of its two stores, which share a state here.
pub mod Memory
pub mod Checks
pub mod Multipart
pub mod Direct
use Prim.Native.String.{◌++◌ as ◌<>◌}
use telebook_server.Prelude.{
  ℕ, String, Bool, true, false, not, ◌||◌, none, some, List, [], ◌∷◌, ◌++◌, length, eqb, ◌==◌,
  if◌then◌else◌,
}
use telebook_server.Prelude.Int.{ℤ, pos, negsuc, eqz, is_negative}
use telebook_server.Model.Errors.{Error, Result, ok, err}
use telebook_server.Model.Action.{Action, pure, raise, attempt, continue, ◌>>=◌, ◌>>◌}
use telebook_server.Model.Book.{BookFileMeta}
use telebook_server.Model.File.{FileCheckItem, FileInitUploadResponse, UploadPartMeta}
use telebook_server.Store.Objects.{ObjectStore, Byte, Reader}
use telebook_server.Store.Files.{FileStore}

pub record FileService (S : Type 0) : Type 0 where
  pub objects : ObjectStore S
  pub files : FileStore S

unfoldable pub object_key : String → String
object_key hash = "files/" <> hash

-- `errors.Is(err, store.ErrObjectNotFound)`.
abbrev pub is_not_found : Error → Bool
is_not_found Error.object_not_found = true
is_not_found _ = false

-- The condition `partNumber < 1`.
abbrev pub below_one : ℤ → Bool
below_one (pos n) = eqb n 0
below_one (negsuc n) = true

-- Whether the size that was found is the declared one; false where none was found.
unfoldable pub has_size : ℤ → Result ℕ → Bool
has_size size (ok n) = eqz (pos n) size
has_size size (err e) = false

module _ {S : Type 0} (v : FileService S) where
  -- What `AllFilesComplete` does with the size of one file, then with the files after it.
  unfoldable pub judge_size : ℤ → Action S Bool → Result ℕ → Action S Bool
  judge_size size rest (ok n) = if eqz (pos n) size then rest else pure false
  judge_size size rest (err e) = if is_not_found e then pure false else raise e

  unfoldable pub all_files_complete : List BookFileMeta → Action S Bool
  all_files_complete [] = pure true
  all_files_complete (f ∷ fs) =
      let rest = all_files_complete fs in
      if f.hash == "" then rest else do
        size ← attempt (v.objects.object_size (object_key f.hash))
        judge_size f.size rest size

  -- A query that fails counts as a missing file.
  unfoldable pub check_from :
      List FileCheckItem → List FileCheckItem → Action S (List FileCheckItem)
  check_from [] missing = pure missing
  check_from (it ∷ its) missing = do
    size ← attempt (v.objects.object_size (object_key it.hash))
    check_from its (if has_size it.size size then missing else missing ++ it ∷ [])

  unfoldable pub check_files : List FileCheckItem → Action S (List FileCheckItem)
  check_files items = check_from items []

  unfoldable pub init_upload : String → ℤ → Action S FileInitUploadResponse
  init_upload hash size = if is_negative size then raise Error.invalid_size else do
    exists ← v.objects.has_object (object_key hash)
    if exists then pure (record { upload_id = ""; complete = true }) else do
      id ← v.objects.init_upload (object_key hash)
      pure (record { upload_id = id; complete = false })

  unfoldable pub upload_part : String → String → ℤ → List Byte → Action S String
  upload_part hash upload_id part_number bytes =
      if below_one part_number || eqb (length bytes) 0 then raise Error.invalid_part else do
        exists ← v.objects.has_object (object_key hash)
        if exists
            then raise Error.file_exists
            else v.objects.upload_part (object_key hash) upload_id part_number bytes

  unfoldable pub complete_upload : String → String → ℤ → List UploadPartMeta → Action S (Unit {0})
  complete_upload hash upload_id size parts =
      if eqb (length parts) 0 then raise Error.upload_not_complete else do
        v.objects.complete_upload (object_key hash) upload_id parts
        v.files.upsert_meta hash size ""

  unfoldable pub put_and_register : String → ℤ → Reader → Action S (Unit {0})
  put_and_register hash size reader = do
    v.objects.put_object (object_key hash) size reader
    v.files.upsert_meta hash size ""

  unfoldable pub direct_upload : String → ℤ → Reader → Action S (Unit {0})
  direct_upload hash size reader =
      if hash == "" || is_negative size then raise Error.invalid_params else do
        found ← attempt (v.objects.object_size (object_key hash))
        if has_size size found then pure tt else put_and_register hash size reader

  unfoldable pub presign_download : String → String → Action S String
  presign_download hash host = v.objects.presign_download (object_key hash) host

  unfoldable pub download : String → Action S (List Byte × ℕ)
  download hash = v.objects.get_object (object_key hash)
