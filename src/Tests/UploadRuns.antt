-- ===== src/Tests/UploadRuns.antt =====
-- Uploads over the memory store, at a concrete book.
use telebook_server.Service.Upload.Starting.{init_upload_succeeds}
use telebook_server.Store.Memory.Replay.{live_payload}
use telebook_server.Store.Memory.Growth.{revision_of}
use telebook_server.Model.Errors.{ok}
use telebook_server.Store.Orders.{load_order, save_order, new_memory_upload_order_store}
use telebook_server.Service.Upload.Completion.{uploaded_payload, uploaded}
use telebook_server.Service.Upload.Stored.{memory_uploads, upload_stores_book}
use telebook_server.Service.Upload.Outcomes.{complete_only_when_done, abandoned_completes}
use telebook_server.Store.Memory.{new_memory_sync_store, MemorySyncStore}
use telebook_server.Model.Book.{BookFileMeta}
use telebook_server.Model.Upload.{
  incomplete, UploadBookTask, UploadCompleteResponse, UploadInitBook, UploadInitBookResult,
}
use telebook_server.Store.Uploads
use telebook_server.Store.Uploads.{commit_init, insert_files, count_rows, same_key, done_count}
use telebook_server.Service.Upload.{
  complete, init_upload, mark_failed, UploadState, UploadService, init_books, init_book,
  upload_payload,
}
use telebook_server.Tests.Sample.{Doc, sample_codec, page}
use telebook_server.Prelude.{
  insert, keep, ◌+◌, All, has, ◌≡◌, refl, true, false, some, List, [], ◌∷◌, lookup, arith, ◌≤◌, ◌⊎◌,
}

abbrev pub no_uploads : UploadState (MemorySyncStore Doc)
no_uploads = record {
  uploads = record { tasks = []; files = [] };
  orders = new_memory_upload_order_store;
  books = new_memory_sync_store;
}

-- Two pages, sent in another order than their paths have.
abbrev two_pages : UploadInitBook
two_pages = record {
  uuid = "u";
  client_id = "k";
  name = "N";
  files = page "p2" ∷ page "p1" ∷ [];
  data_version = "";
}

abbrev pub sample_uploads : UploadService Doc (MemorySyncStore Doc)
sample_uploads = memory_uploads sample_codec (λ l. l) 7 (λ l. l) (λ t. "fresh")

abbrev initialised : List UploadInitBookResult
initialised =
    record {
      client_id = "k";
      uuid = "u";
      total_files = 2;
      pending_files = page "p2" ∷ page "p1" ∷ [];
    }
    ∷ []

started_ok : (init_upload sample_uploads "phone" (two_pages ∷ []) no_uploads).0 ≡ ok initialised
unfolding init_upload init_books init_book Uploads.init_upload commit_init save_order insert_files
    count_rows same_key keep
started_ok = refl

both_marked : All (λ f. has f.hash ("p1" ∷ "p2" ∷ []) ≡ true) two_pages.files
unfolding has
both_marked = (refl, (refl, tt))

upload_stores_book_example :
    (r : UploadCompleteResponse) × (u : UploadState (MemorySyncStore Doc)) × (complete
        sample_uploads "phone" "u"
        (uploaded sample_uploads "phone" two_pages ("p1" ∷ "p2" ∷ []) no_uploads)
      ≡ (ok r, u))
    × (r.done ≡ true)
    × (r.revision ≡ revision_of (lookup "u" no_uploads.books.books) + 1)
    × (live_payload (lookup "u" u.books.books)
        ≡ some (some (uploaded_payload sample_uploads "N" two_pages.files)))
upload_stores_book_example =
    upload_stores_book sample_codec (λ l. l) 7 (λ l. l) (λ t. "fresh") "phone" two_pages
      ("p1" ∷ "p2" ∷ []) no_uploads initialised refl (omega arith) started_ok both_marked

abbrev half : UploadState (MemorySyncStore Doc)
half = (init_upload sample_uploads "phone" (two_pages ∷ []) no_uploads).1

half_answer :
    (complete sample_uploads "phone" "u" half).0
    ≡ ok (record { uuid = "u"; done = false; reason = incomplete; revision = 0 })
unfolding complete Uploads.complete Uploads.get_task upload_payload load_order init_upload
    init_books init_book Uploads.init_upload commit_init save_order insert_files count_rows same_key
    keep lookup insert new_memory_upload_order_store
half_answer = refl

complete_only_when_done_example :
    ((false ≡ true)
      × (t : UploadBookTask) × (files : List BookFileMeta) × (lookup "u" half.uploads.tasks
          ≡ some t)
      × (lookup "u" half.orders.order ≡ some files)
      × (1 ≤ t.total_files)
      × (t.total_files ≤ done_count "u" half.uploads.files))
    ⊎ ((false ≡ false) × ((complete sample_uploads "phone" "u" half).1 ≡ half))
complete_only_when_done_example =
    complete_only_when_done sample_uploads "phone" "u" half
      (record { uuid = "u"; done = false; reason = incomplete; revision = 0 }) half_answer

abandoned_completes_example :
    (complete sample_uploads "phone" "u" (mark_failed sample_uploads "u" half).1).0
    ≡ (complete sample_uploads "phone" "u" half).0
abandoned_completes_example = abandoned_completes sample_uploads "phone" "u" half

init_upload_succeeds_example :
    (init_upload sample_uploads "phone" (two_pages ∷ []) half).0 ≡ ok initialised
init_upload_succeeds_example =
    init_upload_succeeds sample_uploads two_pages "phone" half refl ((refl, tt), (tt, tt))
