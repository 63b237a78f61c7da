-- ===== src/Service/Upload/Outcomes.antt =====
-- The ways in which the completion of an upload ends.
use telebook_server.Model.Book.{RawMessage, BookFileMeta}
use telebook_server.Model.Upload.{failed_upload, incomplete, UploadBookTask, UploadCompleteResponse}
use telebook_server.Store.Uploads.Marking.{finished, get_task-found, get_task-none}
use telebook_server.Prelude.{
  sym, ◌⊎◌, ◌&&◌, ◌≤◌, String, ◌≡◌, refl, ◌∙◌, ap, Bool, true, false, none, some, List, arith,
  lookup, Option-cases, Bool-cases, inl, inr, leb, ltb,
}
use telebook_server.Model.Errors.{ok_inj, Result-cases, Error, ok, err}
use telebook_server.Store.Uploads
use telebook_server.Store.Uploads.{update_task, UploadTables, done_count}
use telebook_server.Service.Upload.{
  UploadService, UploadState, complete, mark_failed, upload_payload, store_book,
}
use telebook_server.Service.Upload.Completion.{load_order-none, uploaded_payload}
use telebook_server.Prelude.{if◌then◌else◌}
use telebook_server.Store.Uploads.Marking.{update_task-found, complete-decides}
use telebook_server.Service.Upload.Completion.{upload_payload-found}

module _ {Raw S : Type 0} (v : UploadService Raw S) where
  abbrev not_done : String → UploadCompleteResponse
  not_done uuid = record { uuid = uuid; done = false; reason = incomplete; revision = 0 }

  -- The test of the statement of `Complete`.
  abbrev pub all_done : String → UploadBookTask → UploadTables → Bool
  all_done uuid t s = leb t.total_files (done_count uuid s.files) && ltb 0 t.total_files

  pub data Outcome (device_id uuid : String) (s : UploadState S) : Type 0 where
    refused : (e : Error) → complete v device_id uuid s ≡ (err e, s) → Outcome device_id uuid s
    unfinished_upload :
        complete v device_id uuid s ≡ (ok (not_done uuid), s) → Outcome device_id uuid s
    stored :
        (t : UploadBookTask) (files : List BookFileMeta)
        → lookup uuid s.uploads.tasks ≡ some t
        → lookup uuid s.orders.order ≡ some files
        → all_done uuid t s.uploads ≡ true
        → complete v device_id uuid s
          ≡ store_book v device_id uuid
              (some (uploaded_payload v t.name files))
              (record s { uploads = finished uuid t s.uploads })
        → Outcome device_id uuid s

  pub complete-unknown :
      (device_id uuid : String) (s : UploadState S)
      → lookup uuid s.uploads.tasks ≡ none
      → complete v device_id uuid s ≡ (err Error.no_rows, s)
  unfolding complete
  complete-unknown device_id uuid s e = rw (get_task-none v.scan uuid s.uploads e) refl

  complete-lost :
      (device_id uuid : String) (s : UploadState S) (t : UploadBookTask)
      → lookup uuid s.uploads.tasks ≡ some t
      → lookup uuid s.orders.order ≡ none
      → complete v device_id uuid s ≡ (err Error.upload_order_lost, s)
  unfolding complete upload_payload
  complete-lost device_id uuid s t e o =
      rw (get_task-found v.scan uuid s.uploads t e) (rw (load_order-none uuid s.orders o) refl)

  complete-decided :
      (device_id uuid : String) (s : UploadState S) (t : UploadBookTask) (files : List BookFileMeta)
      → lookup uuid s.uploads.tasks ≡ some t
      → lookup uuid s.orders.order ≡ some files
      → complete v device_id uuid s ≡ (
          if all_done uuid t s.uploads
          then store_book v device_id uuid
              (some (uploaded_payload v t.name files))
              (record s { uploads = finished uuid t s.uploads })
          else (ok (not_done uuid), s))
  unfolding complete
  complete-decided device_id uuid s t files e o = rw (get_task-found v.scan uuid s.uploads t e) (
      rw (upload_payload-found v uuid t files s o) (
        rw (complete-decides uuid s.uploads t e) (elim (Bool-cases (all_done uuid t s.uploads)) [
          | inl a ↦ rw a refl
          | inr a ↦ rw a refl
        ])))

  complete-Outcome : (device_id uuid : String) (s : UploadState S) → Outcome device_id uuid s
  complete-Outcome device_id uuid s = elim (Option-cases (lookup uuid s.uploads.tasks)) [
    | inl e ↦ refused Error.no_rows (complete-unknown device_id uuid s e)
    | inr (t, e) ↦ elim (Option-cases (lookup uuid s.orders.order)) [
      | inl o ↦ refused Error.upload_order_lost (complete-lost device_id uuid s t e o)
      | inr (files, o) ↦ elim (Bool-cases (all_done uuid t s.uploads)) [
        | inl a ↦ stored t files e o a (complete-decided device_id uuid s t files e o ∙ rw a refl)
        | inr a ↦ unfinished_upload (complete-decided device_id uuid s t files e o ∙ rw a refl)
      ]
    ]
  ]

  store_book-done :
      (device_id uuid : String) (p : RawMessage Raw) (s : UploadState S)
      (r : UploadCompleteResponse)
      → (store_book v device_id uuid p s).0 ≡ ok r
      → r.done ≡ true
  unfolding store_book
  store_book-done device_id uuid p s r h =
      elim (Result-cases (v.stores.force_upsert_book uuid p device_id s.books).0) [
        | inl (e, q) ↦ cc (rw q at h)
        | inr (o, q) ↦ sym (ap (λ x. x.done) (ok_inj _ r (rw q at h)))
      ]

  -- A book is answered as done only when its task is there, the order of its files is cached, and
  -- at least as many of its files are done as the task has, of which there is at least one; an
  -- answer that is not done changes nothing.
  pub complete_only_when_done :
      (device_id uuid : String) (s : UploadState S) (r : UploadCompleteResponse)
      → (complete v device_id uuid s).0 ≡ ok r
      → ((r.done ≡ true)
          × (t : UploadBookTask) × (files : List BookFileMeta) × (lookup uuid s.uploads.tasks
              ≡ some t)
          × (lookup uuid s.orders.order ≡ some files)
          × (1 ≤ t.total_files)
          × (t.total_files ≤ done_count uuid s.uploads.files))
        ⊎ ((r.done ≡ false) × ((complete v device_id uuid s).1 ≡ s))
  complete_only_when_done device_id uuid s r h = elim (complete-Outcome device_id uuid s) [
    | refused e c ↦ cc (h, ap (λ x. x.0) c)
    | unfinished_upload c ↦
        inr (ap (λ x. x.done) (ok_inj r (not_done uuid) (sym h ∙ ap (λ x. x.0) c)), ap (λ x. x.1) c)
    | stored t files e o a c ↦ inl (
      store_book-done device_id uuid _ _ r (sym (ap (λ x. x.0) c) ∙ h),
      t,
      files,
      e,
      o,
      ground arith,
      ground arith,
    )
  ]

  store_book-result :
      (device_id uuid : String) (p : RawMessage Raw) (s t : UploadState S)
      → s.books ≡ t.books
      → (store_book v device_id uuid p s).0 ≡ (store_book v device_id uuid p t).0
  unfolding store_book
  store_book-result device_id uuid p s t e =
      elim (Result-cases (v.stores.force_upsert_book uuid p device_id t.books).0) [
        | inl (x, q) ↦ rw e (rw q refl)
        | inr (x, q) ↦ rw e (rw q refl)
      ]

  -- The state in which the task of the upload has failed.
  abbrev failed : String → UploadState S → UploadState S
  failed uuid s = (mark_failed v uuid s).1

  failed-none :
      (uuid : String) (s : UploadState S)
      → lookup uuid s.uploads.tasks ≡ none
      → lookup uuid (failed uuid s).uploads.tasks ≡ none
  unfolding mark_failed Uploads.mark_failed
  failed-none uuid s e = rw (e, update_task) e

  failed-some :
      (uuid : String) (s : UploadState S) (t : UploadBookTask)
      → lookup uuid s.uploads.tasks ≡ some t
      → lookup uuid (failed uuid s).uploads.tasks ≡ some (record t { status = failed_upload })
  unfolding mark_failed Uploads.mark_failed
  failed-some uuid s t e = update_task-found uuid _ s.uploads.tasks t e

  failed-orders : (uuid : String) (s : UploadState S) → (failed uuid s).orders ≡ s.orders
  unfolding mark_failed
  failed-orders uuid s = refl

  decided-failed :
      (device_id uuid : String) (s : UploadState S) (t : UploadBookTask) (files : List BookFileMeta)
      → lookup uuid s.uploads.tasks ≡ some t
      → lookup uuid s.orders.order ≡ some files
      → (complete v device_id uuid (failed uuid s)).0 ≡ (complete v device_id uuid s).0
  unfolding mark_failed Uploads.mark_failed
  decided-failed device_id uuid s t files e o =
      rw (complete-decided device_id uuid (failed uuid s) _ files (failed-some uuid s t e) o) (
        rw (complete-decided device_id uuid s t files e o)
          (elim (Bool-cases (all_done uuid t s.uploads)) [
            | inl a ↦ rw a (store_book-result device_id uuid _ _ _ refl)
            | inr a ↦ rw a refl
          ]))

  -- Giving an upload up does not stop it from being completed: the answer of `Complete` is the same
  -- with and without a call of `MarkFailed` just before.
  pub abandoned_completes :
      (device_id uuid : String) (s : UploadState S)
      → (complete v device_id uuid (mark_failed v uuid s).1).0 ≡ (complete v device_id uuid s).0
  abandoned_completes device_id uuid s = elim (Option-cases (lookup uuid s.uploads.tasks)) [
    | inl e ↦
        ap (λ x. x.0) (complete-unknown device_id uuid (failed uuid s) (failed-none uuid s e))
        ∙ sym (ap (λ x. x.0) (complete-unknown device_id uuid s e))
    | inr (t, e) ↦ elim (Option-cases (lookup uuid s.orders.order)) [
      | inl o ↦
          ap (λ x. x.0)
            (complete-lost device_id uuid (failed uuid s) _ (failed-some uuid s t e)
              (rw (failed-orders uuid s) o))
          ∙ sym (ap (λ x. x.0) (complete-lost device_id uuid s t e o))
      | inr (files, o) ↦ decided-failed device_id uuid s t files e o
    ]
  ]
