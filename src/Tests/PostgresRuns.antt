-- ===== src/Tests/PostgresRuns.antt =====
-- The PostgreSQL stores and the library version, at concrete calls.
use telebook_server.Store.Library.Injective.{CleanBook, Collides, version_determines_library}
use telebook_server.Prelude.{
  ◌⊎◌, digit, decimal_within, All, decimal, before, free, Bool, String, ◌≡◌, refl, true, Option,
  none, some, List, [], ◌∷◌, lookup, insert, map, keep,
}
use telebook_server.Prelude.Int.{pos}
use telebook_server.Model.Errors.{Error, Result, ok, err, map_ok}
use telebook_server.Model.Book.{BookFileMeta, BookSnapshotItem}
use telebook_server.Model.Sync.{Change, op_delete, op_progress}
use telebook_server.Store.Memory.{new_memory_sync_store}
use telebook_server.Store.Memory.Restore.{
  snapshot_item_payload, read_snapshot, item_files, nil_or_string,
}
use telebook_server.Store.Memory.Conflicts.{is_open}
use telebook_server.Store.Postgres.{SyncTables, empty_tables, transaction, settle, rolled_back}
use telebook_server.Store.Postgres.Rows.{
  change_exists, put_event, insert_event, log_accepted, normalize_payload, parse_book_payload,
  payload_data, checked, files_json, fits_integer, write_row, written_row,
}
use telebook_server.Store.Postgres.Books.{
  apply_book_change, book_body, decide_book, change_book, write_book_data,
}
use telebook_server.Store.Postgres.Agreement.{Agrees, verdict}
use telebook_server.Store.Postgres.Restore.{restore_library, item_data}
use telebook_server.Store.Postgres.Conflicts.{BuildObject, list_open}
use telebook_server.Store.Postgres.Stores.{PgEnv}
use telebook_server.Store.Postgres.Replay.{Mirrored}
use telebook_server.Store.Postgres.Steps.{
  Reach, here, next, book_changed, restored, AllReadBack, reachable-Mirrored,
}
use telebook_server.Store.Postgres.Soundness.{Sound}
use telebook_server.Store.Postgres.Histories.{reachable-Sound}
use telebook_server.Store.Postgres.Listing.{every_open_conflict_listed, shown, stored}
use telebook_server.Store.Postgres.Progress.{progress_invisible}
use telebook_server.Store.Library.{
  Arrangement, write_files, write_items, put_sorted, book_item, file_item, sort_by, sort_slice,
  LibraryBook, library_items, library_text, compute_library_version,
}
use telebook_server.Store.Library.Order.{SameBooks, version_ignores_order}
use telebook_server.Store.Library.Sorting.{nil, swap, cons, trans, Shuffled, Permutes}
use telebook_server.Service.Sync.{
  SyncService, files_to_verify, files_complete, apply_routed, result_of, incomplete_result,
  push_one, push_all,
}
use telebook_server.Service.Sync.Backends.{SameAnswers, IsBookChange, push_all_refines}
use telebook_server.Service.Sync.Backends
use telebook_server.Service.Sync.Failures.{IsStopped, failed_push_keeps_prefix}
use telebook_server.Tests.Sample.{
  Doc, null_doc, book_doc, files_doc, items_doc, docs_of, sample_codec, page,
}
use telebook_server.Tests.SyncRuns.{upsert}

abbrev book_columns : BuildObject Doc
book_columns (some name) (some p) cover (some files) = book_doc name p cover files
book_columns _ _ _ _ = null_doc

abbrev pg_env : PgEnv Doc
pg_env = record {
  codec = sample_codec;
  build_object = book_columns;
  order = λ l. l;
  by_id = λ l. l;
  fresh = λ n. "server";
  now = 7;
}

abbrev progress : String → String → Change Doc
progress change_id id = record (upsert change_id id (pos 0)) { op = op_progress }

abbrev created : SyncTables Doc
created = (apply_book_change sample_codec (upsert "c1" "b" (pos 0)) "auto" "phone" 7 empty_tables).1

abbrev read_on : SyncTables Doc
read_on = (apply_book_change sample_codec (progress "c2" "b") "auto" "tablet" 7 created).1

-- The second device was late.
abbrev late : SyncTables Doc
late = (apply_book_change sample_codec (upsert "c3" "b" (pos 0)) "auto" "tablet" 7 read_on).1

abbrev archived : BookSnapshotItem Doc
archived = record {
  uuid = "old";
  name = "Old";
  current_page = pos 3;
  cover_hash = "";
  files = some (files_doc (some (page "p1" ∷ [])));
  revision = 4;
}

abbrev archive : Option Doc
archive = some (items_doc (docs_of (archived ∷ [])))

abbrev replaced : SyncTables Doc
replaced = (restore_library sample_codec (λ n. "server") (λ l. l) archive "desk" 7 late).1

archive-AllReadBack : AllReadBack sample_codec archive
unfolding read_snapshot item_data payload_data parse_book_payload checked files_json fits_integer
    normalize_payload snapshot_item_payload item_files nil_or_string
archive-AllReadBack = (λ d h. h, tt)

abbrev late_history : Reach sample_codec empty_tables late
late_history =
    next
      (next (next here (book_changed _ "auto" "phone" 7 empty_tables))
        (book_changed _ "auto" "tablet" 7 created))
      (book_changed _ "auto" "tablet" 7 read_on)

reachable-Mirrored_example : Mirrored sample_codec replaced
reachable-Mirrored_example =
    reachable-Mirrored sample_codec
      (next late_history (restored (λ n. "server") (λ l. l) archive "desk" 7 late))
      ((((tt, tt), tt), tt), archive-AllReadBack)

reachable-Sound_example : Sound late
reachable-Sound_example = reachable-Sound sample_codec late_history

every_open_conflict_listed_example :
    map (shown book_columns) (list_open book_columns late)
    ≡ map (stored book_columns late) (keep (λ c. is_open c.status) late.conflicts)
every_open_conflict_listed_example =
    every_open_conflict_listed book_columns sample_codec late_history

progress_invisible_example :
    map_ok verdict
      (apply_book_change sample_codec
        (upsert "c3" "b" (pos 1))
        "auto"
        "tablet"
        8
        (apply_book_change sample_codec (progress "c2" "b") "auto" "phone" 7 created).1).0
    ≡ map_ok verdict
        (apply_book_change sample_codec (upsert "c3" "b" (pos 1)) "auto" "tablet" 8 created).0
progress_invisible_example =
    progress_invisible sample_codec (progress "c2" "b") (upsert "c3" "b" (pos 1)) "auto" "phone"
      "tablet" 7 8 created refl refl

abbrev verified : Option (List BookFileMeta → Result Bool)
verified = some (λ fs. ok true)

abbrev no_version : List LibraryBook → String
no_version bs = ""

-- A new book, a late update of it, and its deletion.
abbrev three_changes : List (Change Doc)
three_changes =
    upsert "c1" "b" (pos 0)
    ∷ upsert "c2" "b" (pos 0)
    ∷ record (upsert "c3" "b" (pos 1)) { op = op_delete }
    ∷ []

upsert-IsBookChange :
    (change_id : String)
    → IsBookChange pg_env verified no_version none (upsert change_id "b" (pos 0))
unfolding payload_data parse_book_payload checked files_json fits_integer nil_or_string
upsert-IsBookChange change_id = (refl, record { kept = refl; writable = λ e. (_, refl) })

deletion-IsBookChange :
    IsBookChange pg_env verified no_version none
      (record (upsert "c3" "b" (pos 1)) { op = op_delete })
deletion-IsBookChange = (refl, record { kept = refl; writable = λ e. absurd (cc e) })

empty-Agrees : Agrees sample_codec empty_tables new_memory_sync_store
unfolding empty_tables new_memory_sync_store lookup change_exists
empty-Agrees = record { row = λ id. tt; known = λ j. refl }

push_all_refines_example :
    SameAnswers pg_env verified no_version none
      (push_all
        (Backends.pg pg_env verified no_version none)
        "phone"
        "auto"
        three_changes
        []
        empty_tables)
      (push_all
        (Backends.memory pg_env verified no_version none)
        "phone"
        "auto"
        three_changes
        []
        new_memory_sync_store)
push_all_refines_example =
    push_all_refines pg_env verified no_version none "phone" "auto" three_changes empty_tables
      new_memory_sync_store
      (upsert-IsBookChange "c1", (upsert-IsBookChange "c2", (deletion-IsBookChange, tt)))
      empty-Agrees

-- The second book has no files, which the column does not take.
abbrev bad_changes : List (Change Doc)
bad_changes =
    upsert "c1" "b" (pos 0)
    ∷ record (upsert "c2" "d" (pos 0)) { payload = none }
    ∷ upsert "c3" "e" (pos 0)
    ∷ []

abbrev sample_pg : SyncService Doc (SyncTables Doc)
sample_pg = Backends.pg_service pg_env verified none no_version

bad_fails :
    (push_all sample_pg "phone" "auto" bad_changes [] empty_tables).0 ≡ err Error.database_error
unfolding push_all push_one files_complete files_to_verify apply_routed result_of incomplete_result
    apply_book_change transaction settle rolled_back book_body decide_book change_book
    write_book_data write_row written_row log_accepted insert_event put_event change_exists
    empty_tables lookup insert payload_data parse_book_payload checked files_json fits_integer
    nil_or_string
bad_fails = refl

failed_push_keeps_prefix_example :
    IsStopped pg_env verified none no_version "phone" "auto" bad_changes [] empty_tables
      (push_all sample_pg "phone" "auto" bad_changes [] empty_tables).1
failed_push_keeps_prefix_example =
    failed_push_keeps_prefix pg_env verified none no_version "phone" "auto" bad_changes empty_tables
      Error.database_error bad_fails

abbrev one_book : String → List BookFileMeta → LibraryBook
one_book uuid files = record { uuid = uuid; name = "N"; files = files }

abbrev two_books : List LibraryBook
two_books = one_book "a" (page "1" ∷ page "2" ∷ []) ∷ one_book "b" [] ∷ []

abbrev other_order : List LibraryBook
other_order = one_book "b" [] ∷ one_book "a" (page "2" ∷ page "1" ∷ []) ∷ []

other_order-SameBooks : SameBooks two_books other_order
other_order-SameBooks = trans (cons (refl, refl, swap) (cons (refl, refl, nil) nil)) swap

-- An arrangement that exchanges the first two elements, and one that does not.
abbrev exchanged : {A : Type 0} → List A → List A
exchanged [] = []
exchanged (x ∷ []) = x ∷ []
exchanged (x ∷ y ∷ xs) = y ∷ x ∷ xs

abbrev exchanging : Arrangement
exchanging = record { of_files = exchanged; of_books = exchanged }

abbrev as_they_are : Arrangement
as_they_are = record { of_files = λ l. l; of_books = λ l. l }

same-Shuffled : {A : Type 0} (xs : List A) → Shuffled xs xs
same-Shuffled [] = nil
same-Shuffled (x ∷ xs) = cons refl (same-Shuffled xs)

exchanged-Shuffled : {A : Type 0} (xs : List A) → Shuffled xs (exchanged xs)
exchanged-Shuffled [] = nil
exchanged-Shuffled (x ∷ []) = cons refl nil
exchanged-Shuffled (x ∷ y ∷ xs) = swap

exchanging-Permutes : Permutes exchanging
exchanging-Permutes = record { files = exchanged-Shuffled; books = exchanged-Shuffled }

as_they_are-Permutes : Permutes as_they_are
as_they_are-Permutes = record { files = same-Shuffled; books = same-Shuffled }

same_version :
    compute_library_version as_they_are (λ s. s) two_books
    ≡ compute_library_version exchanging (λ s. s) other_order
unfolding compute_library_version library_text library_items book_item sort_slice sort_by put_sorted
    write_items write_files file_item before decimal decimal_within digit
same_version = refl

version_ignores_order_example :
    compute_library_version as_they_are (λ s. s) two_books
    ≡ compute_library_version exchanging (λ s. s) other_order
version_ignores_order_example =
    version_ignores_order (λ s. s) as_they_are exchanging two_books other_order as_they_are-Permutes
      exchanging-Permutes other_order-SameBooks ((refl, tt), (tt, tt))
      (((refl, tt), (tt, tt)), (tt, tt))

two_books-Clean : All CleanBook two_books
unfolding file_item free
two_books-Clean = (
  record { uuid = refl; name = refl; files = ((refl, refl), ((refl, refl), tt)) },
  (record { uuid = refl; name = refl; files = tt }, tt),
)

other_order-Clean : All CleanBook other_order
unfolding file_item free
other_order-Clean = (
  record { uuid = refl; name = refl; files = tt },
  (record { uuid = refl; name = refl; files = ((refl, refl), ((refl, refl), tt)) }, tt),
)

version_determines_library_example :
    (library_items as_they_are two_books ≡ library_items exchanging other_order)
    ⊎ Collides (λ s. s) as_they_are two_books exchanging other_order
version_determines_library_example =
    version_determines_library (λ s. s) as_they_are exchanging two_books other_order
      as_they_are-Permutes exchanging-Permutes two_books-Clean other_order-Clean same_version

-- A name with a bar and an end of line: one book and two books have the same version.
abbrev named : String → String → LibraryBook
named uuid name = record { uuid = uuid; name = name; files = [] }

version_collision :
    compute_library_version as_they_are (λ s. s) (named "a" "n|0\nb|m" ∷ [])
    ≡ compute_library_version as_they_are (λ s. s) (named "a" "n" ∷ named "b" "m" ∷ [])
unfolding compute_library_version library_text library_items book_item sort_slice sort_by put_sorted
    write_items write_files file_item before decimal decimal_within digit
version_collision = refl
