-- ===== src/Service/Upload/Stored.antt =====
-- A whole upload over the memory store of the books.
use telebook_server.Store.Memory.Replay.{live_payload}
use telebook_server.Store.Memory.Growth.{revision_of}
use telebook_server.Store.Memory.Log.{append_event}
use telebook_server.Store.Interfaces.{memory_stores}
use telebook_server.Store.Memory.Books.{forced_book, write_book_row, force_upsert_book}
use telebook_server.Store.Memory.{MemorySyncStore}
use telebook_server.Model.Upload.{UploadCompleteResponse, UploadInitBookResult, UploadInitBook}
use telebook_server.Model.Book.{Time, Codec}
use telebook_server.Prelude.{
  ◌+◌, eq_refl, ◌≤◌, String, ◌≡◌, refl, ◌∙◌, ap, true, false, some, List, [], ◌∷◌, length, has,
  arith, ◌==◌, All, lookup, lookup-insert,
}
use telebook_server.Model.Errors.{ok}
use telebook_server.Store.Uploads.{UploadTables, UploadFile}
use telebook_server.Service.Upload.{UploadService, UploadState, init_upload, complete, store_book}
use telebook_server.Service.Upload.Completion.{complete-uploaded, uploaded, uploaded_payload}

-- The service over the memory store of the books.
abbrev pub memory_uploads :
    {Raw : Type 0}
    → Codec Raw
    → (List String → List String)
    → Time
    → (List UploadFile → List UploadFile)
    → (UploadTables → String)
    → UploadService Raw (MemorySyncStore Raw)
memory_uploads codec order now scan random = record {
  stores = memory_stores codec order now;
  codec = codec;
  scan = scan;
  random = random;
}

module _ {Raw : Type 0} (codec : Codec Raw) (order : List String → List String) (now : Time)
    (scan : List UploadFile → List UploadFile) (random : UploadTables → String) where
  abbrev v : UploadService Raw (MemorySyncStore Raw)
  v = memory_uploads codec order now scan random

  store_book-live :
      (device_id uuid : String) (p : Raw) (t : UploadState (MemorySyncStore Raw))
      → (r : UploadCompleteResponse) × (u : UploadState (MemorySyncStore Raw)) × (store_book v
            device_id uuid
            (some p)
            t
          ≡ (ok r, u))
        × (r.done ≡ true)
        × (r.revision ≡ revision_of (lookup uuid t.books.books) + 1)
        × (live_payload (lookup uuid u.books.books) ≡ some (some p))
  unfolding store_book force_upsert_book write_book_row append_event forced_book live_payload
  store_book-live device_id uuid p t =
      (_, _, refl, refl, ground arith, simp (lookup-insert, eq_refl) (ground arith))

  -- An upload of a book with files succeeds over the memory store: when the initialisation
  -- succeeds, under the client's uuid, and then every file of the book is marked as done, by its
  -- hash, in any order, completing it answers done with the revision after the one of the book,
  -- and the server has the book, under the name and with the files in the order of the
  -- initialisation.
  pub upload_stores_book :
      (device_id : String) (b : UploadInitBook) (hs : List String)
      (s : UploadState (MemorySyncStore Raw)) (results : List UploadInitBookResult)
      → (b.uuid == "") ≡ false
      → 1 ≤ length b.files
      → (init_upload v device_id (b ∷ []) s).0 ≡ ok results
      → All (λ f. has f.hash hs ≡ true) b.files
      → (r : UploadCompleteResponse) × (u : UploadState (MemorySyncStore Raw)) × (complete v
            device_id b.uuid
            (uploaded v device_id b hs s)
          ≡ (ok r, u))
        × (r.done ≡ true)
        × (r.revision ≡ revision_of (lookup b.uuid s.books.books) + 1)
        × (live_payload (lookup b.uuid u.books.books)
            ≡ some (some (uploaded_payload v b.name b.files)))
  upload_stores_book device_id b hs s results n l e h =
      let (t, k, c) = complete-uploaded v device_id b hs s results n l e h in
      let (r, u, q, d, f, w) =
        store_book-live device_id b.uuid (uploaded_payload v b.name b.files) t in
      (r, u, c ∙ q, d, f ∙ ap (λ x. revision_of (lookup b.uuid x.books) + 1) k, w)
