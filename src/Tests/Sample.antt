-- ===== src/Tests/Sample.antt =====
-- A codec whose documents are the values that the program writes and reads.
use telebook_server.Prelude.{ℕ, String, Bool, true, false, Option, none, some, List, [], ◌∷◌}
use telebook_server.Prelude.Int.{ℤ, pos}
use telebook_server.Model.Book.{
  BookFileMeta, Slice, BookPayload, zero_payload, BookSnapshotItem, Codec,
}

mutual
  pub data Doc : Type 0 where
    null_doc : Doc
    files_doc : Slice BookFileMeta → Doc
    payload_doc : BookPayload → Doc
    book_doc : String → ℤ → Option String → Doc → Doc
    items_doc : Docs → Doc

  -- The items of a snapshot.
  pub data Docs : Type 0 where
    no_items : Docs
    item : String → String → ℤ → String → Doc → ℕ → Docs → Docs
    bare_item : String → String → ℤ → String → ℕ → Docs → Docs

abbrev pub items_of : Docs → List (BookSnapshotItem Doc)
items_of no_items = []
items_of (item u n p c f r ds) =
    record { uuid = u; name = n; current_page = p; cover_hash = c; files = some f; revision = r }
    ∷ items_of ds
items_of (bare_item u n p c r ds) =
    record { uuid = u; name = n; current_page = p; cover_hash = c; files = none; revision = r }
    ∷ items_of ds

abbrev with_files : BookSnapshotItem Doc → Option Doc → Docs → Docs
with_files i none ds = bare_item i.uuid i.name i.current_page i.cover_hash i.revision ds
with_files i (some f) ds = item i.uuid i.name i.current_page i.cover_hash f i.revision ds

abbrev pub docs_of : List (BookSnapshotItem Doc) → Docs
docs_of [] = no_items
docs_of (i ∷ is) = with_files i i.files (docs_of is)

abbrev read_payload : Doc → BookPayload × Bool
read_payload (payload_doc p) = (p, true)
read_payload null_doc = (zero_payload, true)
read_payload (book_doc n p none (files_doc fs)) =
    (record { name = n; current_page = p; cover_hash = ""; files = fs }, true)
read_payload (book_doc n p (some c) (files_doc fs)) =
    (record { name = n; current_page = p; cover_hash = c; files = fs }, true)
read_payload _ = (zero_payload, false)

abbrev read_files : Doc → Option (Slice BookFileMeta)
read_files (files_doc fs) = some fs
read_files null_doc = some none
read_files _ = none

abbrev read_items : Doc → Option (List (BookSnapshotItem Doc))
read_items (items_doc ds) = some (items_of ds)
read_items null_doc = some []
read_items _ = none

abbrev is_null : Doc → Bool
is_null null_doc = true
is_null _ = false

abbrev pub sample_codec : Codec Doc
sample_codec = record {
  is_null = is_null;
  empty_array = files_doc (some []);
  read_payload = read_payload;
  write_payload = payload_doc;
  read_files = read_files;
  write_files = files_doc;
  read_items = read_items;
  write_items = λ is. items_doc (docs_of is);
  write_book = book_doc;
}

abbrev pub page : String → BookFileMeta
page path = record { rel_path = path; hash = path; size = pos 3 }

-- A payload of one page.
abbrev pub one_page : String → Option Doc
one_page name = some (
    payload_doc (record {
      name = name;
      current_page = pos 0;
      cover_hash = "";
      files = some (page "p1" ∷ []);
    }))
