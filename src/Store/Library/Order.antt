-- ===== src/Store/Library/Order.antt =====
-- The library version does not depend on the order of the books, nor on that of the files of a
-- book, nor on what an unstable sort does.
use telebook_server.Prelude.{String, ◌≡◌, refl, ap, List, [], ◌∷◌, map, All}
use telebook_server.Model.Book.{BookFileMeta}
use telebook_server.Store.Library.{
  LibraryBook, Arrangement, file_item, book_item, library_items, library_text,
  compute_library_version,
}
use telebook_server.Store.Library.Sorting.{
  Reordered, nil, cons, swap, trans, Shuffled, NoRepeat, Permutes, length-Reordered,
  NoRepeat-Reordered, NoRepeat-map, sort_slice-Shuffled, map-Reordered,
}

-- The paths and hashes of two lists of files are the same, in another order.
abbrev pub SameFiles : List BookFileMeta → List BookFileMeta → Type 0
SameFiles = Reordered (λ f g. file_item f ≡ file_item g)

abbrev pub SameBook : LibraryBook → LibraryBook → Type 0
SameBook b c = (b.uuid ≡ c.uuid) × (b.name ≡ c.name) × SameFiles b.files c.files

abbrev pub SameBooks : List LibraryBook → List LibraryBook → Type 0
SameBooks = Reordered SameBook

-- No path stands twice in a book.
abbrev pub PathsDiffer : LibraryBook → Type 0
PathsDiffer b = NoRepeat (λ f. f.rel_path) b.files

files-Shuffled :
    {fs gs : List BookFileMeta} → SameFiles fs gs → Shuffled (map file_item fs) (map file_item gs)
files-Shuffled nil = nil
files-Shuffled (cons e r) = cons e (files-Shuffled r)
files-Shuffled swap = swap
files-Shuffled (trans r q) = trans (files-Shuffled r) (files-Shuffled q)

items-NoRepeat :
    (fs : List BookFileMeta)
    → NoRepeat (λ f. f.rel_path) fs
    → NoRepeat (λ f. f.rel) (map file_item fs)
unfolding file_item
items-NoRepeat fs h = NoRepeat-map file_item (λ f. f.rel) fs h

SameFiles-refl : (fs : List BookFileMeta) → SameFiles fs fs
SameFiles-refl [] = nil
SameFiles-refl (f ∷ fs) = cons refl (SameFiles-refl fs)

book_item-SameBook :
    (r q : Arrangement) (b c : LibraryBook)
    → Permutes r
    → Permutes q
    → SameBook b c
    → PathsDiffer b
    → book_item r b ≡ book_item q c
unfolding book_item
book_item-SameBook r q b c pr pq (u, n, files) h =
    rw
      (
        u,
        n,
        length-Reordered (files-Shuffled files),
        sort_slice-Shuffled (λ f. f.rel) r.of_files q.of_files (map file_item b.files)
            (map file_item c.files) (pr.files (map file_item b.files))
            (pq.files (map file_item c.files)) (files-Shuffled files) (items-NoRepeat b.files h),
      )
      refl

same_path : (f g : BookFileMeta) → file_item f ≡ file_item g → f.rel_path ≡ g.rel_path
unfolding file_item
same_path f g e = ap (λ i. i.rel) e

PathsDiffer-SameBook : (b c : LibraryBook) → SameBook b c → PathsDiffer b → PathsDiffer c
PathsDiffer-SameBook b c (u, n, files) h = NoRepeat-Reordered (λ f. f.rel_path) same_path files h

books_again :
    (r q : Arrangement) (bs : List LibraryBook)
    → Permutes r
    → Permutes q
    → All PathsDiffer bs
    → map (book_item r) bs ≡ map (book_item q) bs
books_again r q [] pr pq h = refl
books_again r q (b ∷ bs) pr pq (h, hs) =
    rw
      (
        book_item-SameBook r q b b pr pq (refl, refl, SameFiles-refl b.files) h,
        books_again r q bs pr pq hs,
      )
      refl

uuids-NoRepeat :
    (r : Arrangement) (bs : List LibraryBook)
    → NoRepeat (λ b. b.uuid) bs
    → NoRepeat (λ it. it.uuid) (map (book_item r) bs)
unfolding book_item
uuids-NoRepeat r bs h = NoRepeat-map (book_item r) (λ it. it.uuid) bs h

-- Two libraries have the same version, whatever order unstable sorts give to equal elements, if
-- they have the same books in another order, and in each book the same paths and hashes in
-- another order, where no two books have one id and no two files of a book one path; the sizes
-- of the files do not count.
pub version_ignores_order :
    (digest : String → String) (r q : Arrangement) (bs cs : List LibraryBook)
    → Permutes r
    → Permutes q
    → SameBooks bs cs
    → NoRepeat (λ b. b.uuid) bs
    → All PathsDiffer bs
    → compute_library_version r digest bs ≡ compute_library_version q digest cs
unfolding compute_library_version library_text library_items
version_ignores_order digest r q bs cs pr pq same ids paths =
    rw
      (
        books_again r q bs pr pq paths,
        sort_slice-Shuffled (λ it. it.uuid) r.of_books q.of_books (map (book_item q) bs)
            (map (book_item q) cs) (pr.books (map (book_item q) bs))
            (pq.books (map (book_item q) cs))
            (map-Reordered (book_item q) PathsDiffer PathsDiffer-SameBook
              (λ b c e h. book_item-SameBook q q b c pq pq e h) same paths)
            (uuids-NoRepeat q bs ids),
      )
      refl
