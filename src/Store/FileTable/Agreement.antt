-- ===== src/Store/FileTable/Agreement.antt =====
-- internal/store/file_store.go: the table `file_meta` finds the hashes that the map of
-- `MemoryFileStore` finds.
use telebook_server.Prelude.{
  String, Bool, true, false, not, ◌&&◌, ◌≡◌, refl, ap, Option, none, some, List, [], ◌∷◌, keep,
  GoMap, lookup, insert, lookup-insert, is_some, arith, eq_iff, if◌then◌else◌,
}
use telebook_server.Prelude.Int.{ℤ}
use telebook_server.Model.File.{FileCheckItem}
use telebook_server.Store.Files.{MemoryFileStore, upsert_meta, found_hashes, missing_hashes}
use telebook_server.Store.FileTable.{FileTable, upsert_row, any_of, found_rows}

lookup-found_rows :
    (hashes : List String) (t : FileTable) (j : String)
    → lookup j (found_rows hashes t)
      ≡ (if any_of hashes j && is_some (lookup j t) then some true else none)
unfolding found_rows lookup
lookup-found_rows hashes [] j = ground arith
lookup-found_rows hashes ((hash, row) ∷ rest) j = ground (
  arith,
  lookup-found_rows hashes rest j,
  lookup-insert hash j true (found_rows hashes rest),
  eq_iff hash j,
)

lookup-found_hashes :
    (hashes : List String) (files : GoMap ℤ) (found : GoMap Bool) (j : String)
    → lookup j (found_hashes hashes files found)
      ≡ (if any_of hashes j && is_some (lookup j files) then some true else lookup j found)
unfolding found_hashes any_of
lookup-found_hashes [] files found j = refl
lookup-found_hashes (h ∷ hs) files found j = ground (
  arith,
  lookup-found_hashes hs files (if is_some (lookup h files) then insert h true found else found) j,
  lookup-insert h j true found,
  eq_iff h j,
)

-- A table and a map register the same hashes.
unfoldable SameHashes : FileTable → GoMap ℤ → Type 0
SameHashes t files = (j : String) → is_some (lookup j t) ≡ is_some (lookup j files)

-- Where table and map register the same hashes, both stores lead to the same missing files.
missing_agree :
    (t : FileTable) (files : GoMap ℤ) (same : SameHashes t files) (hashes : List String)
    (items : List FileCheckItem)
    → missing_hashes items (found_rows hashes t)
      ≡ missing_hashes items (found_hashes hashes files [])
unfolding missing_hashes SameHashes lookup
missing_agree t files same hashes items =
    ap
      (λ (f : String → Option Bool).
        keep (λ item. not (elim (f item.hash) [ none ↦ false | some b ↦ b ])) items)
      (λ i j. agree j i)
  where
    agree : (j : String) → lookup j (found_rows hashes t) ≡ lookup j (found_hashes hashes files [])
    agree j = rw (lookup-found_rows hashes t j, same j, lookup-found_hashes hashes files [] j) refl

-- Registering a file in both keeps that they register the same hashes.
upsert-SameHashes :
    (hash mime : String) (size : ℤ) (t : FileTable) (s : MemoryFileStore)
    → SameHashes t s.files
    → SameHashes ((upsert_row hash size mime t).1) ((upsert_meta hash size mime s).1).files
unfolding SameHashes upsert_row upsert_meta
upsert-SameHashes hash mime size t s same j = ground (
  arith,
  same hash,
  same j,
  lookup-insert hash j (record { size = size; mime_type = mime }) t,
  lookup-insert hash j size s.files,
  eq_iff hash j,
)
