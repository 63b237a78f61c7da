-- ===== src/Store/Library/Injective.antt =====
-- What the library version says of the library: the text that is digested can be read back where
-- the separators do not stand in the fields.
use Prim.Native.Char.{Char, char}
use Prim.Native.String.append
use Prim.Native.String.{◌∷◌ as ◌∷ᶜ◌, ◌++◌ as ◌<>◌}
use telebook_server.Prelude.{
  String, ◌≡◌, refl, ◌∙◌, sym, ap, true, ◌≢◌, ◌⊎◌, inl, inr, Bool-cases, eq_iff, ◌==◌, List, [],
  ◌∷◌, map, length, All, free, split_unique, append_nonempty, append_assoc, decimal, decimal_inj,
  free-decimal, arith,
}
use telebook_server.Store.Library.{
  LibraryBook, FileItem, BookItem, Arrangement, file_item, book_item, library_items, library_text,
  write_files, write_items, compute_library_version,
}
use telebook_server.Store.Library.Sorting.{Permutes, All-map, sort_slice-All, length-sort_slice}

-- A separator in front of a text.
separator : (c : Char) (x : String) → (c ∷ᶜ "") <> x ≡ c ∷ᶜ x
separator c x = append.cons c "" x ∙ ap (λ s. c ∷ᶜ s) (append.nil x)

abbrev colon : Char
colon = char 58 tt

abbrev bar : Char
bar = char 124 tt

abbrev newline : Char
newline = char 10 tt

-- No colon in the path, no end of line in the hash.
abbrev pub CleanFile : FileItem → Type 0
CleanFile f = (free 58 f.rel ≡ true) × (free 10 f.hash ≡ true)

file_line :
    (f : FileItem) (fs : List FileItem) (x : String)
    → write_files (f ∷ fs) <> x ≡ f.rel <> (colon ∷ᶜ (f.hash <> (newline ∷ᶜ (write_files fs <> x))))
unfolding write_files
file_line f fs x =
    rw
      (
        separator newline (write_files fs),
        separator colon (f.hash <> (newline ∷ᶜ write_files fs)),
        append_assoc f.rel (colon ∷ᶜ (f.hash <> (newline ∷ᶜ write_files fs))) x,
        append.cons colon (f.hash <> (newline ∷ᶜ write_files fs)) x,
        append_assoc f.hash (newline ∷ᶜ write_files fs) x,
        append.cons newline (write_files fs) x,
      )
      refl

write_files_inj :
    (fs gs : List FileItem) (x y : String)
    → length fs ≡ length gs
    → All CleanFile fs
    → All CleanFile gs
    → write_files fs <> x ≡ write_files gs <> y
    → (fs ≡ gs) × (x ≡ y)
write_files_inj [] [] x y l cf cg h =
    (refl, unfold write_files in (sym (append.nil x) ∙ h ∙ append.nil y))
write_files_inj [] (g ∷ gs) x y l cf cg h = absurd (omega arith)
write_files_inj (f ∷ fs) [] x y l cf cg h = absurd (omega arith)
write_files_inj (f ∷ fs) (g ∷ gs) x y l cf cg h =
    let rels =
      split_unique colon f.rel g.rel _ _ (cf.0.0) (cg.0.0)
        (sym (file_line f fs x) ∙ h ∙ file_line g gs y) in
    let hashes = split_unique newline f.hash g.hash _ _ (cf.0.1) (cg.0.1) (rels.1) in
    let rest = write_files_inj fs gs x y (omega arith) (cf.1) (cg.1) (hashes.1) in
    (cc (rels.0, hashes.0, rest.0), rest.1)

-- No bar in the id and the name, clean files, and their number.
pub record CleanItem (it : BookItem) : Type 0 where
  pub uuid : free 124 it.uuid ≡ true
  pub name : free 124 it.name ≡ true
  pub files : All CleanFile it.files
  pub count : it.count ≡ length it.files

item_line :
    (it : BookItem) (its : List BookItem)
    → write_items (it ∷ its)
      ≡ it.uuid
        <> (bar
            ∷ᶜ (it.name
                <> (bar
                    ∷ᶜ (decimal it.count
                        <> (newline ∷ᶜ (write_files it.files <> write_items its))))))
unfolding write_items
item_line it its =
    rw
      (
        separator newline (write_files it.files <> write_items its),
        separator bar (decimal it.count <> (newline ∷ᶜ (write_files it.files <> write_items its))),
        separator bar (
            it.name
            <> (bar
                ∷ᶜ (decimal it.count <> (newline ∷ᶜ (write_files it.files <> write_items its))))),
      )
      refl

write_items_inj :
    (its jts : List BookItem)
    → All CleanItem its
    → All CleanItem jts
    → write_items its ≡ write_items jts
    → its ≡ jts
write_items_inj [] [] ci cj h = refl
write_items_inj [] (j ∷ js) ci cj h =
    absurd
      (append_nonempty bar j.uuid _ (sym (item_line j js) ∙ sym h ∙ (unfold write_items in refl)))
write_items_inj (i ∷ is) [] ci cj h =
    absurd (append_nonempty bar i.uuid _ (sym (item_line i is) ∙ h ∙ (unfold write_items in refl)))
write_items_inj (i ∷ is) (j ∷ js) ci cj h =
    let uuids =
      split_unique bar i.uuid j.uuid _ _ (ci.0.uuid) (cj.0.uuid)
        (sym (item_line i is) ∙ h ∙ item_line j js) in
    let names = split_unique bar i.name j.name _ _ (ci.0.name) (cj.0.name) (uuids.1) in
    let counts =
      split_unique newline (decimal i.count) (decimal j.count) _ _
        (free-decimal 10 i.count (omega arith)) (free-decimal 10 j.count (omega arith)) (names.1) in
    let same = decimal_inj i.count j.count (counts.0) in
    let files =
      write_files_inj i.files j.files (write_items is) (write_items js)
        (sym (ci.0.count) ∙ same ∙ cj.0.count) (ci.0.files) (cj.0.files) (counts.1) in
    let rest = write_items_inj is js (ci.1) (cj.1) (files.1) in
    cc (uuids.0, names.0, same, files.0, rest)

-- No bar in the id and the name, no colon in a path, no end of line in a hash.
pub record CleanBook (b : LibraryBook) : Type 0 where
  pub uuid : free 124 b.uuid ≡ true
  pub name : free 124 b.name ≡ true
  pub files : All (λ f. CleanFile (file_item f)) b.files

book_item-CleanItem :
    (r : Arrangement) (b : LibraryBook) → Permutes r → CleanBook b → CleanItem (book_item r b)
unfolding book_item
book_item-CleanItem r b p c = record {
  uuid = c.uuid;
  name = c.name;
  files =
      sort_slice-All (λ f. f.rel) CleanFile r.of_files (map file_item b.files)
        (p.files (map file_item b.files)) (All-map file_item CleanFile b.files c.files);
  count =
      length-sort_slice (λ f. f.rel) r.of_files (map file_item b.files)
        (p.files (map file_item b.files));
}

book_items-CleanItem :
    (r : Arrangement) (bs : List LibraryBook)
    → Permutes r
    → All CleanBook bs
    → All CleanItem (map (book_item r) bs)
book_items-CleanItem r [] p h = tt
book_items-CleanItem r (b ∷ bs) p h =
    (book_item-CleanItem r b p (h.0), book_items-CleanItem r bs p (h.1))

library_items-CleanItem :
    (r : Arrangement) (bs : List LibraryBook)
    → Permutes r
    → All CleanBook bs
    → All CleanItem (library_items r bs)
unfolding library_items
library_items-CleanItem r bs p h =
    sort_slice-All (λ it. it.uuid) CleanItem r.of_books (map (book_item r) bs)
      (p.books (map (book_item r) bs)) (book_items-CleanItem r bs p h)

-- Two different texts of libraries with one digest.
abbrev pub Collides :
    (String → String) → Arrangement → List LibraryBook → Arrangement → List LibraryBook → Type 0
Collides digest r bs q cs =
    (library_text r bs ≢ library_text q cs)
    × (digest (library_text r bs) ≡ digest (library_text q cs))

-- Two libraries with the same version, whatever order unstable sorts gave to equal elements, have
-- the same books, in the order of their ids: the same ids, names, numbers of files, and, in the
-- order of the paths, the same paths and hashes; unless their texts are two different texts with
-- the same digest. It is provided that ids and names have no bar, paths no colon, and hashes no
-- end of line.
pub version_determines_library :
    (digest : String → String) (r q : Arrangement) (bs cs : List LibraryBook)
    → Permutes r
    → Permutes q
    → All CleanBook bs
    → All CleanBook cs
    → compute_library_version r digest bs ≡ compute_library_version q digest cs
    → (library_items r bs ≡ library_items q cs) ⊎ Collides digest r bs q cs
unfolding compute_library_version library_text
version_determines_library digest r q bs cs pr pq hb hc h =
    elim (Bool-cases (library_text r bs == library_text q cs)) [
      | inl e ↦ inl (
          write_items_inj _ _ (library_items-CleanItem r bs pr hb)
            (library_items-CleanItem q cs pq hc)
            ((eq_iff (library_text r bs) (library_text q cs)).0 e))
      | inr e ↦
          inr
            ((λ same. absurd (cc ((eq_iff (library_text r bs) (library_text q cs)).1 same, e))), h)
    ]
