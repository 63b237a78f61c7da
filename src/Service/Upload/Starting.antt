-- ===== src/Service/Upload/Starting.antt =====
-- When the initialisation of a book succeeds.
use telebook_server.Store.Orders.{save_order}
use telebook_server.Prelude.{
  String, ◌≡◌, refl, false, not, some, List, [], ◌∷◌, ◌++◌, keep, length, All, arith, ◌==◌,
}
use telebook_server.Model.Errors.{ok}
use telebook_server.Model.Book.{BookFileMeta}
use telebook_server.Model.Upload.{UploadInitBook}
use telebook_server.Store.Uploads
use telebook_server.Store.Uploads.{
  UploadFile, insert_files, count_rows, same_key, of_upload, commit_init,
}
use telebook_server.Store.Uploads.Marking.{count_rows-append, new_row}
use telebook_server.Service.Upload.{UploadService, UploadState, init_book, init_books, init_upload}

-- No path stands twice.
abbrev pub NoRepeat : List BookFileMeta → Type 0
NoRepeat [] = Unit
NoRepeat (f ∷ fs) = All (λ g. (f.rel_path == g.rel_path) ≡ false) fs × NoRepeat fs

-- The rows have no file of the path for the upload.
abbrev IsFree : String → List UploadFile → BookFileMeta → Type 0
IsFree uuid rs f = count_rows (same_key uuid f.rel_path) rs ≡ 0

fresh-IsFree :
    (uuid : String) (f : BookFileMeta) (rs : List UploadFile)
    → IsFree uuid (keep (λ r. not (of_upload uuid r)) rs) f
unfolding count_rows keep same_key
fresh-IsFree uuid f [] = refl
fresh-IsFree uuid f (r ∷ rs) = ground (arith, fresh-IsFree uuid f rs)

row-other :
    (uuid : String) (f g : BookFileMeta)
    → (f.rel_path == g.rel_path) ≡ false
    → count_rows (same_key uuid g.rel_path) (new_row uuid f ∷ []) ≡ 0
unfolding count_rows same_key
row-other uuid f g n = ground arith

add_row-IsFree :
    (uuid : String) (f : BookFileMeta) (rs : List UploadFile) (fs : List BookFileMeta)
    → All (IsFree uuid rs) fs
    → All (λ g. (f.rel_path == g.rel_path) ≡ false) fs
    → All (IsFree uuid (rs ++ new_row uuid f ∷ [])) fs
add_row-IsFree uuid f rs [] h n = tt
add_row-IsFree uuid f rs (g ∷ gs) (h, hs) (n, ns) = (
  omega (
    arith,
    count_rows-append (same_key uuid g.rel_path) rs (new_row uuid f ∷ []),
    row-other uuid f g n,
  ),
  add_row-IsFree uuid f rs gs hs ns,
)

insert_files-NoRepeat :
    (uuid : String) (fs : List BookFileMeta) (rs : List UploadFile)
    → NoRepeat fs
    → All (IsFree uuid rs) fs
    → (rows : List UploadFile) × (insert_files uuid fs rs ≡ some rows)
unfolding insert_files
insert_files-NoRepeat uuid [] rs n h = (rs, refl)
insert_files-NoRepeat uuid (f ∷ fs) rs (n, ns) (h, hs) =
    let (rows, e) =
      insert_files-NoRepeat uuid fs (rs ++ new_row uuid f ∷ []) ns
        (add_row-IsFree uuid f rs fs hs n) in
    (rows, rw h e)

All-IsFree :
    (uuid : String) (rs : List UploadFile) (fs : List BookFileMeta)
    → All (IsFree uuid (keep (λ r. not (of_upload uuid r)) rs)) fs
All-IsFree uuid rs [] = tt
All-IsFree uuid rs (f ∷ fs) = (fresh-IsFree uuid f rs, All-IsFree uuid rs fs)

module _ {Raw S : Type 0} (v : UploadService Raw S) where
  init_upload-inserted :
      (b : UploadInitBook) (device_id : String) (s : UploadState S) (rows : List UploadFile)
      → (b.uuid == "") ≡ false
      → insert_files b.uuid b.files (keep (λ r. not (of_upload b.uuid r)) s.uploads.files)
        ≡ some rows
      → (init_upload v device_id (b ∷ []) s).0
        ≡ ok (
            record {
              client_id = b.client_id;
              uuid = b.uuid;
              total_files = length b.files;
              pending_files = b.files;
            }
            ∷ [])
  unfolding init_upload init_books init_book Uploads.init_upload commit_init save_order
  init_upload-inserted b device_id s rows n e = rw n (rw e refl)

  -- Starting the upload of a book under the client's uuid succeeds where no path stands twice among
  -- its files, whatever was uploaded under the uuid before: the answer keeps the uuid, and
  -- all the files of the request are still to be sent.
  pub init_upload_succeeds :
      (b : UploadInitBook) (device_id : String) (s : UploadState S)
      → (b.uuid == "") ≡ false
      → NoRepeat b.files
      → (init_upload v device_id (b ∷ []) s).0
        ≡ ok (
            record {
              client_id = b.client_id;
              uuid = b.uuid;
              total_files = length b.files;
              pending_files = b.files;
            }
            ∷ [])
  init_upload_succeeds b device_id s n d =
      let (rows, e) =
        insert_files-NoRepeat b.uuid b.files _ d (All-IsFree b.uuid s.uploads.files b.files) in
      init_upload-inserted b device_id s rows n e
