-- ===== src/Store/Uploads.antt =====
-- internal/store/book_upload_store.go: `PGBookUploadStore` over its two tables of
-- internal/store/db.go, `book_upload` with the key `uuid` and `book_upload_file` with the key
-- (`upload_uuid`, `rel_path`). A statement fails where it breaks a key or finds no row; a failed
-- transaction leaves the tables as they were. `scan` is the order in which a query without
-- ORDER BY gives the rows, `random` the text of `newUUID`.
pub mod Marking
use telebook_server.Prelude.{
  ◌+◌, ℕ, String, Bool, true, false, not, ◌&&◌, ◌||◌, Option, none, some, List, [], ◌∷◌, ◌++◌, map,
  GoMap, lookup, insert, keep, length, ltb, leb, is_some, ◌==◌, if◌then◌else◌,
}
use telebook_server.Model.Errors.{Error, Result, ok, err}
use telebook_server.Model.Book.{BookFileMeta}
use telebook_server.Model.Upload.{
  UploadStatus, uploading, done_upload, failed_upload, UploadBookTask,
}

pub data FileStatus : Type 0 where
  pending done_file : FileStatus

-- A row of `book_upload_file`.
pub record UploadFile : Type 0 where
  pub upload_uuid : String
  pub file : BookFileMeta
  pub status : FileStatus

pub record UploadTables : Type 0 where
  pub tasks : GoMap UploadBookTask
  pub files : List UploadFile

abbrev pub is_done : FileStatus → Bool
is_done pending = false
is_done done_file = true

abbrev pub of_upload : String → UploadFile → Bool
of_upload uuid r = r.upload_uuid == uuid

-- The key of the table of files.
unfoldable pub same_key : String → String → UploadFile → Bool
same_key uuid path r = r.upload_uuid == uuid && r.file.rel_path == path

unfoldable pub count_rows : (UploadFile → Bool) → List UploadFile → ℕ
count_rows p [] = 0
count_rows p (r ∷ rs) = let n = count_rows p rs in if p r then 1 + n else n

abbrev pub done_count : String → List UploadFile → ℕ
done_count uuid rs = count_rows (λ r. of_upload uuid r && is_done r.status) rs

-- The INSERTs of the loop; none where one breaks the key.
unfoldable pub insert_files :
    String → List BookFileMeta → List UploadFile → Option (List UploadFile)
insert_files uuid [] rows = some rows
insert_files uuid (f ∷ fs) rows =
    let rest =
      insert_files uuid fs
        (rows ++ record { upload_uuid = uuid; file = f; status = pending } ∷ []) in
    if leb 1 (count_rows (same_key uuid f.rel_path) rows) then none else rest

abbrev pub new_task : String → String → String → String → ℕ → UploadBookTask
new_task uuid name data_version device_id total = record {
  uuid = uuid;
  name = name;
  status = uploading;
  total_files = total;
  done_files = 0;
  data_version = data_version;
  device_id = device_id;
}

unfoldable pub commit_init :
    UploadBookTask
    → List BookFileMeta
    → Option (List UploadFile)
    → UploadTables
    → Result (UploadBookTask × List BookFileMeta) × UploadTables
commit_init task fs none s = (err Error.database_error, s)
commit_init task fs (some rows) s =
    (ok (task, fs), record { tasks = insert task.uuid task s.tasks; files = rows })

unfoldable pub init_upload :
    String
    → String
    → String
    → String
    → String
    → List BookFileMeta
    → UploadTables
    → Result (UploadBookTask × List BookFileMeta) × UploadTables
init_upload random uuid name data_version device_id files s =
    let id = if uuid == "" then random else uuid in
    commit_init (new_task id name data_version device_id (length files)) files
      (insert_files id files (keep (λ r. not (of_upload id r)) s.files)) s

unfoldable pub unfinished : String → List UploadFile → List BookFileMeta
unfinished uuid rows =
    map (λ r. r.file) (keep (λ r. of_upload uuid r && not (is_done r.status)) rows)

unfoldable pub get_task :
    (List UploadFile → List UploadFile)
    → String
    → UploadTables
    → Result (UploadBookTask × List BookFileMeta) × UploadTables
get_task scan uuid s = elim (lookup uuid s.tasks) [
  | none ↦ (err Error.no_rows, s)
  | some t ↦ (ok (t, unfinished uuid (scan s.files)), s)
]

unfoldable pub list_all_files :
    (List UploadFile → List UploadFile)
    → String
    → UploadTables
    → Result (List BookFileMeta) × UploadTables
list_all_files scan uuid s = (ok (map (λ r. r.file) (keep (of_upload uuid) (scan s.files))), s)

-- The rows that the first UPDATE of `MarkFileDone` changes.
unfoldable pub to_mark : String → String → UploadFile → Bool
to_mark uuid hash r = of_upload uuid r && r.file.hash == hash && not (is_done r.status)

unfoldable pub mark_row : String → String → UploadFile → UploadFile
mark_row uuid hash r = if to_mark uuid hash r then record r { status = done_file } else r

abbrev pub update_task :
    String → (UploadBookTask → UploadBookTask) → GoMap UploadBookTask → GoMap UploadBookTask
update_task uuid f m = elim (lookup uuid m) [ none ↦ m | some t ↦ insert uuid (f t) m ]

unfoldable pub mark_file_done : String → String → UploadTables → Result (Unit {0}) × UploadTables
mark_file_done uuid hash s =
    let rows = map (mark_row uuid hash) s.files in
    (
      ok tt,
      if leb 1 (count_rows (to_mark uuid hash) s.files)
          then record {
            tasks = update_task uuid (λ t. record t { done_files = done_count uuid rows }) s.tasks;
            files = rows;
          }
          else s,
    )

unfoldable pub complete : String → UploadTables → Result Bool × UploadTables
complete uuid s = elim (lookup uuid s.tasks) [
  | none ↦ (err Error.no_rows, s)
  | some t ↦
      if leb t.total_files (done_count uuid s.files) && ltb 0 t.total_files
      then (ok true, record s { tasks = insert uuid (record t { status = done_upload }) s.tasks })
      else (ok false, s)
]

unfoldable pub mark_failed : String → UploadTables → Result (Unit {0}) × UploadTables
mark_failed uuid s = (
  ok tt,
  record s { tasks = update_task uuid (λ t. record t { status = failed_upload }) s.tasks },
)
