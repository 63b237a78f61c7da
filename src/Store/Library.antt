-- ===== src/Store/Library.antt =====
-- internal/store/library_meta_store.go: `ComputeLibraryVersion` and `PGLibraryVersionStore`. The
-- digest, `sha256` with `hex`, is the argument `digest`.
pub mod Sorting
pub mod Order
pub mod Injective
use Prim.Native.String.{◌++◌ as ◌<>◌}
use telebook_server.Prelude.{
  map, ℕ, String, Bool, Option, none, some, List, [], ◌∷◌, length, before, decimal, if◌then◌else◌,
}
use telebook_server.Model.Errors.{Result, ok}
use telebook_server.Model.Action.{Action}
use telebook_server.Model.Book.{BookFileMeta}
use telebook_server.Store.Interfaces.{LibraryVersionStore}

pub record LibraryBook : Type 0 where
  pub uuid : String
  pub name : String
  pub files : List BookFileMeta

pub record FileItem : Type 0 where
  pub rel : String
  pub hash : String

pub record BookItem : Type 0 where
  pub uuid : String
  pub name : String
  pub count : ℕ
  pub files : List FileItem

-- Sorted by a text of the elements; those of one text stay in their order.
module _ {A : Type 0} (text : A → String) where
  unfoldable pub put_sorted : A → List A → List A
  put_sorted x [] = x ∷ []
  put_sorted x (y ∷ ys) =
      let rest = put_sorted x ys in if before (text y) (text x) then y ∷ rest else x ∷ y ∷ ys

  unfoldable pub sort_by : List A → List A
  unfolding put_sorted
  sort_by [] = []
  sort_by (x ∷ xs) = put_sorted x (sort_by xs)

-- `sort.Slice` is not stable: the elements of one text come in any order. So the elements are
-- first arranged, by any function that permutes them; each result that `sort.Slice` may have is
-- that of some arrangement.
unfoldable pub sort_slice : {A : Type 0} → (List A → List A) → (A → String) → List A → List A
unfolding sort_by
sort_slice arrange text xs = sort_by text (arrange xs)

-- The arrangements of one call.
pub record Arrangement : Type 0 where
  pub of_files : List FileItem → List FileItem
  pub of_books : List BookItem → List BookItem

unfoldable pub file_item : BookFileMeta → FileItem
file_item f = record { rel = f.rel_path; hash = f.hash }

unfoldable pub book_item : Arrangement → LibraryBook → BookItem
unfolding file_item sort_slice
book_item r b =
    let files = map file_item b.files in
    record {
      uuid = b.uuid;
      name = b.name;
      count = length files;
      files = sort_slice r.of_files (λ f. f.rel) files;
    }

-- The sorted items of the books.
unfoldable pub library_items : Arrangement → List LibraryBook → List BookItem
unfolding book_item sort_slice
library_items r books = sort_slice r.of_books (λ it. it.uuid) (map (book_item r) books)

unfoldable pub write_files : List FileItem → String
write_files [] = ""
write_files (f ∷ fs) = f.rel <> (":" <> (f.hash <> ("\n" <> write_files fs)))

unfoldable pub write_items : List BookItem → String
unfolding write_files
write_items [] = ""
write_items (it ∷ its) =
    it.uuid
    <> ("|"
        <> (it.name
            <> ("|" <> (decimal it.count <> ("\n" <> (write_files it.files <> write_items its))))))

unfoldable pub library_text : Arrangement → List LibraryBook → String
unfolding library_items write_items
library_text r books = write_items (library_items r books)

unfoldable pub compute_library_version : Arrangement → (String → String) → List LibraryBook → String
unfolding library_text
compute_library_version r digest books = digest (library_text r books)

-- The row of `library_meta` with the id 1, which the CHECK makes the only one: its version.
abbrev pub LibraryMeta : Type 0
LibraryMeta = Option String

unfoldable pub get_book_version : Action LibraryMeta String
get_book_version none = (ok "", none)
get_book_version (some version) = (ok version, some version)

unfoldable pub set_book_version : String → Action LibraryMeta (Unit {0})
set_book_version version t = (ok tt, some version)

abbrev pub pg_library_version_store : LibraryVersionStore LibraryMeta
pg_library_version_store = record {
  get_book_version = get_book_version;
  set_book_version = set_book_version;
}
