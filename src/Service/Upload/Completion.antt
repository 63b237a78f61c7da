-- ===== src/Service/Upload/Completion.antt =====
-- A whole upload: initialise, mark the files, complete.
use telebook_server.Prelude.Int.{pos}
use telebook_server.Model.Upload.{UploadInitBookResult, UploadInitBook, UploadBookTask}
use telebook_server.Store.Orders.{save_order, MemoryUploadOrderStore, load_order}
use telebook_server.Model.Book.{BookFileMeta}
use telebook_server.Prelude.{
  eq_refl, ◌≤◌, String, ◌≡◌, refl, ◌∙◌, ap, true, false, not, Option, none, some, List, [], ◌∷◌,
  length, has, arith, ◌==◌, All, lookup, insert, lookup-insert, Option-cases, inl, inr, keep,
}
use telebook_server.Model.Errors.{Error, ok, err}
use telebook_server.Store.Uploads
use telebook_server.Store.Uploads.{
  new_task, UploadTables, UploadFile, insert_files, done_count, of_upload, commit_init,
}
use telebook_server.Store.Uploads.Marking.{
  complete-found, get_task-found, finished, Task, count_within, count_within-done,
  count_within-fresh, insert_files-within, mark_file_done-Task, mark_file_done-within,
}
use telebook_server.Service.Upload.{
  UploadService, UploadState, init_book, init_books, init_upload, mark_file_done, complete,
  upload_payload, store_book,
}

load_order-found :
    (uuid : String) (files : List BookFileMeta) (s : MemoryUploadOrderStore)
    → lookup uuid s.order ≡ some files
    → load_order uuid s ≡ (ok files, s)
unfolding load_order
load_order-found uuid files s e = rw (e, load_order) refl

pub load_order-none :
    (uuid : String) (s : MemoryUploadOrderStore)
    → lookup uuid s.order ≡ none
    → load_order uuid s ≡ (err Error.upload_order_lost, s)
unfolding load_order
load_order-none uuid s e = rw (e, load_order) refl

module _ {Raw S : Type 0} (v : UploadService Raw S) where
  -- The book that the upload stores: its files in the order of the request.
  abbrev pub uploaded_payload : String → List BookFileMeta → Raw
  uploaded_payload name files =
      v.codec.write_payload
        (record { name = name; current_page = pos 0; cover_hash = ""; files = some files })

  -- The upload is complete once the files of the hashes are marked.
  pub record Ready (uuid name : String) (files : List BookFileMeta) (hs : List String)
      (s : UploadState S) : Type 0 where
    pub task : Task uuid name (length files) s.uploads
    pub order : lookup uuid s.orders.order ≡ some files
    pub rows : count_within uuid hs s.uploads.files ≡ length files

  unfoldable pub mark_all : String → List String → UploadState S → UploadState S
  mark_all uuid [] s = s
  mark_all uuid (h ∷ hs) s = mark_all uuid hs (mark_file_done v uuid h s).1

  mark-Ready :
      (uuid name h : String) (files : List BookFileMeta) (hs : List String) (s : UploadState S)
      → Ready uuid name files (h ∷ hs) s
      → Ready uuid name files hs (mark_file_done v uuid h s).1
  unfolding mark_file_done
  mark-Ready uuid name h files hs s r = record {
    task = mark_file_done-Task uuid h name (length files) s.uploads r.task;
    order = r.order;
    rows = mark_file_done-within uuid h hs s.uploads ∙ r.rows;
  }

  mark_all-Ready :
      (uuid name : String) (files : List BookFileMeta) (hs : List String) (s : UploadState S)
      → Ready uuid name files hs s
      → Ready uuid name files [] (mark_all uuid hs s)
  unfolding mark_all
  mark_all-Ready uuid name files [] s r = r
  mark_all-Ready uuid name files (h ∷ hs) s r =
      mark_all-Ready uuid name files hs _ (mark-Ready uuid name h files hs s r)

  pub upload_payload-found :
      (uuid : String) (task : UploadBookTask) (files : List BookFileMeta) (s : UploadState S)
      → lookup uuid s.orders.order ≡ some files
      → upload_payload v uuid task s ≡ (ok (some (uploaded_payload task.name files)), s)
  unfolding upload_payload
  upload_payload-found uuid task files s e = rw (load_order-found uuid files s.orders e) refl

  complete-Ready :
      (device_id uuid name : String) (files : List BookFileMeta) (s : UploadState S)
      → 1 ≤ length files
      → Ready uuid name files [] s
      → (t : UploadState S) × (t.books ≡ s.books)
        × (complete v device_id uuid s
            ≡ store_book v device_id uuid (some (uploaded_payload name files)) t)
  unfolding complete
  complete-Ready device_id uuid name files s l r = (
    record s { uploads = finished uuid r.task.task s.uploads },
    refl,
    rw (get_task-found v.scan uuid s.uploads r.task.task r.task.found) (
        rw (upload_payload-found uuid r.task.task files s r.order) (
          rw
            (complete-found uuid s.uploads r.task.task r.task.found
              (omega (arith, r.task.counted, r.rows, count_within-done uuid s.uploads.files))
              (omega (arith, r.task.counted)))
            (rw r.task.named refl))),
  )

  -- The rows that the initialisation of a book inserts, none where it repeats a path.
  abbrev pub inserted : UploadInitBook → UploadState S → Option (List UploadFile)
  inserted b s = insert_files b.uuid b.files (keep (λ r. not (of_upload b.uuid r)) s.uploads.files)

  abbrev pub started : UploadInitBook → String → List UploadFile → UploadState S → UploadState S
  started b device_id rows s = record s {
    uploads = record {
      tasks =
          insert b.uuid (new_task b.uuid b.name b.data_version device_id (length b.files))
            s.uploads.tasks;
      files = rows;
    };
    orders = record { order = insert b.uuid b.files s.orders.order };
  }

  started-Ready :
      (b : UploadInitBook) (device_id : String) (rows : List UploadFile) (hs : List String)
      (s : UploadState S)
      → inserted b s ≡ some rows
      → All (λ f. has f.hash hs ≡ true) b.files
      → Ready b.uuid b.name b.files hs (started b device_id rows s)
  started-Ready b device_id rows hs s e h = record {
    task = record {
      task = new_task b.uuid b.name b.data_version device_id (length b.files);
      found = simp (lookup-insert, eq_refl) (ground arith);
      named = refl;
      counted = refl;
    };
    order = simp (lookup-insert, eq_refl) (ground arith);
    rows =
        insert_files-within b.uuid hs b.files _ rows e h
        ∙ omega (arith, count_within-fresh b.uuid hs s.uploads.files);
  }

  init_upload-none :
      (b : UploadInitBook) (device_id : String) (s : UploadState S)
      → (b.uuid == "") ≡ false
      → inserted b s ≡ none
      → init_upload v device_id (b ∷ []) s ≡ (err Error.database_error, s)
  unfolding init_upload init_books init_book Uploads.init_upload commit_init
  init_upload-none b device_id s n e = rw n (rw e refl)

  init_upload-some :
      (b : UploadInitBook) (device_id : String) (rows : List UploadFile) (s : UploadState S)
      → (b.uuid == "") ≡ false
      → inserted b s ≡ some rows
      → (init_upload v device_id (b ∷ []) s).1 ≡ started b device_id rows s
  unfolding init_upload init_books init_book Uploads.init_upload commit_init save_order
  init_upload-some b device_id rows s n e = rw n (rw e refl)

  init_upload-Ready :
      (b : UploadInitBook) (device_id : String) (hs : List String) (s : UploadState S)
      (results : List UploadInitBookResult)
      → (b.uuid == "") ≡ false
      → (init_upload v device_id (b ∷ []) s).0 ≡ ok results
      → All (λ f. has f.hash hs ≡ true) b.files
      → Ready b.uuid b.name b.files hs (init_upload v device_id (b ∷ []) s).1
  init_upload-Ready b device_id hs s results n e h = elim (Option-cases (inserted b s)) [
    | inl o ↦ cc (e, ap (λ x. x.0) (init_upload-none b device_id s n o))
    | inr (rows, o) ↦
        rw (init_upload-some b device_id rows s n o) (started-Ready b device_id rows hs s o h)
  ]

  -- The state when a client has initialised one book and marked files of it.
  abbrev pub uploaded : String → UploadInitBook → List String → UploadState S → UploadState S
  uploaded device_id b hs s = mark_all b.uuid hs (init_upload v device_id (b ∷ []) s).1

  mark_all-books :
      (uuid : String) (hs : List String) (s : UploadState S) → (mark_all uuid hs s).books ≡ s.books
  unfolding mark_all mark_file_done
  mark_all-books uuid [] s = refl
  mark_all-books uuid (h ∷ hs) s = mark_all-books uuid hs _

  uploaded-books :
      (device_id : String) (b : UploadInitBook) (hs : List String) (s : UploadState S)
      → (b.uuid == "") ≡ false
      → (uploaded device_id b hs s).books ≡ s.books
  uploaded-books device_id b hs s n =
      mark_all-books b.uuid hs _ ∙ elim (Option-cases (inserted b s)) [
        | inl o ↦ ap (λ x. x.1.books) (init_upload-none b device_id s n o)
        | inr (rows, o) ↦ ap (λ x. x.books) (init_upload-some b device_id rows s n o)
      ]

  pub complete-uploaded :
      (device_id : String) (b : UploadInitBook) (hs : List String) (s : UploadState S)
      (results : List UploadInitBookResult)
      → (b.uuid == "") ≡ false
      → 1 ≤ length b.files
      → (init_upload v device_id (b ∷ []) s).0 ≡ ok results
      → All (λ f. has f.hash hs ≡ true) b.files
      → (t : UploadState S) × (t.books ≡ s.books)
        × (complete v device_id b.uuid (uploaded device_id b hs s)
            ≡ store_book v device_id b.uuid (some (uploaded_payload b.name b.files)) t)
  complete-uploaded device_id b hs s results n l e h =
      let (t, k, c) = complete-Ready device_id b.uuid b.name b.files (uploaded device_id b hs s) l (
        mark_all-Ready b.uuid b.name b.files hs _
          (init_upload-Ready b device_id hs s results n e h)) in
      (t, k ∙ uploaded-books device_id b hs s n, c)
