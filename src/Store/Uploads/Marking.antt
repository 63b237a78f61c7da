-- ===== src/Store/Uploads/Marking.antt =====
-- What the marks of `MarkFileDone` add up to in the table of files.
use telebook_server.Model.Errors.{Error, err, ok}
use telebook_server.Prelude.{
  ltb, insert, GoMap, inl, inr, Bool-cases, Bool-cases, eq_refl, ℕ, ◌+◌, ◌≤◌, String, ◌≡◌, refl,
  ◌∙◌, ap, Bool, true, false, not, ◌&&◌, ◌||◌, none, some, List, [], ◌∷◌, ◌++◌, map, keep, length,
  has, leb, arith, eq_iff, if◌then◌else◌, All, lookup, lookup-insert,
}
use telebook_server.Model.Book.{BookFileMeta}
use telebook_server.Model.Upload.{done_upload, UploadBookTask}
use telebook_server.Store.Uploads.{
  unfinished, complete, get_task, update_task, UploadFile, UploadTables, pending, is_done,
  of_upload, same_key, count_rows, done_count, insert_files, to_mark, mark_row, mark_file_done,
}

-- The rows of an upload that are done, or will be once the files of the hashes are marked.
abbrev pub count_within : String → List String → List UploadFile → ℕ
count_within uuid hs rs =
    count_rows (λ r. of_upload uuid r && (is_done r.status || has r.file.hash hs)) rs

count_within-mark :
    (uuid h : String) (hs : List String) (rs : List UploadFile)
    → count_within uuid hs (map (mark_row uuid h) rs) ≡ count_within uuid (h ∷ hs) rs
unfolding count_rows mark_row to_mark has
count_within-mark uuid h hs [] = refl
count_within-mark uuid h hs (r ∷ rs) =
    ground (arith, count_within-mark uuid h hs rs, eq_iff r.file.hash h, eq_iff h r.file.hash)

pub count_within-done :
    (uuid : String) (rs : List UploadFile) → count_within uuid [] rs ≡ done_count uuid rs
unfolding count_rows has
count_within-done uuid [] = refl
count_within-done uuid (r ∷ rs) = ground (arith, count_within-done uuid rs)

mark_row-idle :
    (uuid h : String) (rs : List UploadFile)
    → count_rows (to_mark uuid h) rs ≡ 0
    → map (mark_row uuid h) rs ≡ rs
unfolding count_rows mark_row
mark_row-idle uuid h [] e = refl
mark_row-idle uuid h (r ∷ rs) e = ground (arith, mark_row-idle uuid h rs)

-- Whether or not the first statement changed a row.
mark_file_done-files :
    (uuid h : String) (s : UploadTables)
    → (mark_file_done uuid h s).1.files ≡ map (mark_row uuid h) s.files
unfolding mark_file_done
mark_file_done-files uuid h s = ground (arith, mark_row-idle uuid h s.files)

pub mark_file_done-within :
    (uuid h : String) (hs : List String) (s : UploadTables)
    → count_within uuid hs (mark_file_done uuid h s).1.files ≡ count_within uuid (h ∷ hs) s.files
mark_file_done-within uuid h hs s =
    ap (count_within uuid hs) (mark_file_done-files uuid h s) ∙ count_within-mark uuid h hs s.files

pub count_within-fresh :
    (uuid : String) (hs : List String) (rs : List UploadFile)
    → count_within uuid hs (keep (λ r. not (of_upload uuid r)) rs) ≡ 0
unfolding count_rows keep
count_within-fresh uuid hs [] = refl
count_within-fresh uuid hs (r ∷ rs) = ground (arith, count_within-fresh uuid hs rs)

pub count_rows-append :
    (p : UploadFile → Bool) (xs ys : List UploadFile)
    → count_rows p (xs ++ ys) ≡ count_rows p xs + count_rows p ys
unfolding count_rows
count_rows-append p [] ys = omega arith
count_rows-append p (x ∷ xs) ys = ground (arith, count_rows-append p xs ys)

-- The row that is inserted for a file.
abbrev pub new_row : String → BookFileMeta → UploadFile
new_row uuid f = record { upload_uuid = uuid; file = f; status = pending }

count_within-new :
    (uuid : String) (hs : List String) (f : BookFileMeta)
    → has f.hash hs ≡ true
    → count_within uuid hs (new_row uuid f ∷ []) ≡ 1
unfolding count_rows
count_within-new uuid hs f h = ground (arith, eq_refl uuid)

pub insert_files-within :
    (uuid : String) (hs : List String) (fs : List BookFileMeta) (rs rows : List UploadFile)
    → insert_files uuid fs rs ≡ some rows
    → All (λ f. has f.hash hs ≡ true) fs
    → count_within uuid hs rows ≡ count_within uuid hs rs + length fs
unfolding insert_files
insert_files-within uuid hs [] rs rows e h = ground arith
insert_files-within uuid hs (f ∷ fs) rs rows e (p, q) =
    elim (Bool-cases (leb 1 (count_rows (same_key uuid f.rel_path) rs))) [
      | inl c ↦ cc (rw c at e)
      | inr c ↦
          insert_files-within uuid hs fs _ rows (rw c at e) q
          ∙ omega (
            arith,
            count_rows-append (λ r. of_upload uuid r && (is_done r.status || has r.file.hash hs)) rs
                (new_row uuid f ∷ []),
            count_within-new uuid hs f p,
          )
    ]

pub update_task-found :
    (uuid : String) (f : UploadBookTask → UploadBookTask) (m : GoMap UploadBookTask)
    (t : UploadBookTask)
    → lookup uuid m ≡ some t
    → lookup uuid (update_task uuid f m) ≡ some (f t)
update_task-found uuid f m t e = rw (e, update_task) (simp (lookup-insert, eq_refl) (ground arith))

-- The task of an upload, but for what the marks count.
pub record Task (uuid name : String) (total : ℕ) (s : UploadTables) : Type 0 where
  pub task : UploadBookTask
  pub found : lookup uuid s.tasks ≡ some task
  pub named : task.name ≡ name
  pub counted : task.total_files ≡ total

pub mark_file_done-Task :
    (uuid h name : String) (total : ℕ) (s : UploadTables)
    → Task uuid name total s
    → Task uuid name total (mark_file_done uuid h s).1
unfolding mark_file_done
mark_file_done-Task uuid h name total s t =
    elim (Bool-cases (leb 1 (count_rows (to_mark uuid h) s.files))) [
      | inl c ↦ record {
        task = record t.task { done_files = done_count uuid (map (mark_row uuid h) s.files) };
        found = rw c (update_task-found uuid _ s.tasks t.task t.found);
        named = t.named;
        counted = t.counted;
      }
      | inr c ↦ rw c t
    ]

pub get_task-found :
    (scan : List UploadFile → List UploadFile) (uuid : String) (s : UploadTables)
    (t : UploadBookTask)
    → lookup uuid s.tasks ≡ some t
    → get_task scan uuid s ≡ (ok (t, unfinished uuid (scan s.files)), s)
unfolding get_task
get_task-found scan uuid s t e = rw (e, get_task) refl

-- The table of tasks once a task is complete.
abbrev pub finished : String → UploadBookTask → UploadTables → UploadTables
finished uuid t s = record s { tasks = insert uuid (record t { status = done_upload }) s.tasks }

pub complete-found :
    (uuid : String) (s : UploadTables) (t : UploadBookTask)
    → lookup uuid s.tasks ≡ some t
    → t.total_files ≤ done_count uuid s.files
    → 1 ≤ t.total_files
    → complete uuid s ≡ (ok true, finished uuid t s)
unfolding complete
complete-found uuid s t e d l = rw (e, complete) (ground arith)

pub get_task-none :
    (scan : List UploadFile → List UploadFile) (uuid : String) (s : UploadTables)
    → lookup uuid s.tasks ≡ none
    → get_task scan uuid s ≡ (err Error.no_rows, s)
unfolding get_task
get_task-none scan uuid s e = rw (e, get_task) refl

pub complete-decides :
    (uuid : String) (s : UploadTables) (t : UploadBookTask)
    → lookup uuid s.tasks ≡ some t
    → complete uuid s ≡ (
        if leb t.total_files (done_count uuid s.files) && ltb 0 t.total_files
        then (ok true, finished uuid t s)
        else (ok false, s))
unfolding complete
complete-decides uuid s t e = rw (e, complete) refl
