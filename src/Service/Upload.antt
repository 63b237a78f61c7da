-- ===== src/Service/Upload.antt =====
-- internal/service/upload_service.go: the upload of a book, over the tables of its tasks, the cache
-- of the order of its files, and the store of the books.
pub mod Completion
pub mod Starting
pub mod Stored
pub mod Outcomes
use telebook_server.Prelude.{
  ℕ, ◌-◌, suc, String, Bool, true, false, not, none, some, List, [], ◌∷◌, ◌++◌, length, leb,
  if◌then◌else◌,
}
use telebook_server.Prelude.Int.{ℤ, pos, negsuc}
use telebook_server.Model.Errors.{Result}
use telebook_server.Model.Action.{Action, pure, continue, ◌>>=◌, ◌>>◌}
use telebook_server.Model.Book.{RawMessage, Codec, BookFileMeta}
use telebook_server.Model.Sync.{ChangeOutcome}
use telebook_server.Model.Upload.{
  UploadBookTask, UploadInitBook, UploadInitBookResult, UploadStatusResponse,
  UploadCompleteResponse, complete_ok, incomplete,
}
use telebook_server.Store.Orders.{MemoryUploadOrderStore, save_order, load_order}
use telebook_server.Store.Uploads
use telebook_server.Store.Uploads.{UploadFile, UploadTables}
use telebook_server.Store.Interfaces.{SyncStores}

-- The states of the three stores.
pub record UploadState (S : Type 0) : Type 0 where
  pub uploads : UploadTables
  pub orders : MemoryUploadOrderStore
  pub books : S

-- The stores, with what the database leaves open: the order of its rows, and the new names.
pub record UploadService (Raw S : Type 0) : Type 0 where
  pub stores : SyncStores Raw S
  pub codec : Codec Raw
  pub scan : List UploadFile → List UploadFile
  pub random : UploadTables → String

module _ {S : Type 0} where
  abbrev pub in_uploads : {A : Type 0} → Action UploadTables A → Action (UploadState S) A
  in_uploads m s = let (r, t) = m s.uploads in (r, record s { uploads = t })

  abbrev pub in_orders : {A : Type 0} → Action MemoryUploadOrderStore A → Action (UploadState S) A
  in_orders m s = let (r, t) = m s.orders in (r, record s { orders = t })

  abbrev pub in_books : {A : Type 0} → Action S A → Action (UploadState S) A
  in_books m s = let (r, t) = m s.books in (r, record s { books = t })

-- Go's subtraction.
abbrev pub minus : ℕ → ℕ → ℤ
minus a b = if leb b a then pos (a - b) else negsuc (b - suc a)

module _ {Raw S : Type 0} (v : UploadService Raw S) where
  unfoldable pub init_book : String → UploadInitBook → Action (UploadState S) UploadInitBookResult
  init_book device_id b = do
    started ←
        in_uploads
          (λ t. Uploads.init_upload (v.random t) b.uuid b.name b.data_version device_id b.files t)
    in_orders (save_order (started.0.uuid) b.files)
    pure (record {
      client_id = b.client_id;
      uuid = started.0.uuid;
      total_files = started.0.total_files;
      pending_files = started.1;
    })

  -- The books before one that fails stay initialised.
  unfoldable pub init_books :
      String
      → List UploadInitBook
      → List UploadInitBookResult
      → Action (UploadState S) (List UploadInitBookResult)
  init_books device_id [] done = pure done
  init_books device_id (b ∷ bs) done = do
    r ← init_book device_id b
    init_books device_id bs (done ++ r ∷ [])

  unfoldable pub init_upload :
      String → List UploadInitBook → Action (UploadState S) (List UploadInitBookResult)
  init_upload device_id books = init_books device_id books []

  unfoldable pub status : String → Action (UploadState S) UploadStatusResponse
  status uuid = do
    found ← in_uploads (Uploads.get_task v.scan uuid)
    pure (record {
      uuid = found.0.uuid;
      name = found.0.name;
      status = found.0.status;
      total_files = found.0.total_files;
      done_files = minus (found.0.total_files) (length (found.1));
      pending_files = found.1;
    })

  unfoldable pub mark_file_done : String → String → Action (UploadState S) (Unit {0})
  mark_file_done uuid hash = in_uploads (Uploads.mark_file_done uuid hash)

  unfoldable pub mark_failed : String → Action (UploadState S) (Unit {0})
  mark_failed uuid = in_uploads (Uploads.mark_failed uuid)

  unfoldable pub upload_payload : String → UploadBookTask → Action (UploadState S) (RawMessage Raw)
  upload_payload uuid task = do
    files ← in_orders (load_order uuid)
    pure (
        some (
          v.codec.write_payload (record {
            name = task.name;
            current_page = pos 0;
            cover_hash = "";
            files = some files;
          })))

  unfoldable pub store_book :
      String → String → RawMessage Raw → Action (UploadState S) UploadCompleteResponse
  store_book device_id uuid payload = do
    outcome ← in_books (v.stores.force_upsert_book uuid payload device_id)
    pure (record { uuid = uuid; done = true; reason = complete_ok; revision = outcome.revision })

  unfoldable pub complete : String → String → Action (UploadState S) UploadCompleteResponse
  complete device_id uuid = do
    found ← in_uploads (Uploads.get_task v.scan uuid)
    payload ← upload_payload uuid (found.0)
    all_done ← in_uploads (Uploads.complete uuid)
    if not all_done
        then pure (record { uuid = uuid; done = false; reason = incomplete; revision = 0 })
        else store_book device_id uuid payload
