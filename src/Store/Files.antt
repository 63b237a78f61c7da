-- ===== src/Store/Files.antt =====
-- internal/store/file_store.go: `FileStore`, `MemoryFileStore` and `MissingHashes`.
use telebook_server.Prelude.{
  false, String, Bool, true, not, none, some, List, [], ◌∷◌, GoMap, lookup, insert, is_some, keep,
  if◌then◌else◌,
}
use telebook_server.Prelude.Int.{ℤ}
use telebook_server.Model.Errors.{ok}
use telebook_server.Model.Action.{Action}
use telebook_server.Model.File.{FileCheckItem}

pub record FileStore (S : Type 0) : Type 0 where
  pub upsert_meta : String → ℤ → String → Action S (Unit {0})
  pub has_hashes : List String → Action S (GoMap Bool)

pub record MemoryFileStore : Type 0 where
  pub files : GoMap ℤ

abbrev pub new_memory_file_store : MemoryFileStore
new_memory_file_store = record { files = [] }

unfoldable pub upsert_meta : String → ℤ → String → Action MemoryFileStore (Unit {0})
upsert_meta hash size mime s = (
  ok tt,
  if is_some (lookup hash s.files) then s else record { files = insert hash size s.files },
)

unfoldable pub found_hashes : List String → GoMap ℤ → GoMap Bool → GoMap Bool
found_hashes [] files found = found
found_hashes (h ∷ hs) files found =
    found_hashes hs files (if is_some (lookup h files) then insert h true found else found)

unfoldable pub has_hashes : List String → Action MemoryFileStore (GoMap Bool)
has_hashes hashes s = (ok (found_hashes hashes s.files []), s)

unfoldable pub missing_hashes : List FileCheckItem → GoMap Bool → List FileCheckItem
missing_hashes all found =
    keep (λ item. not (elim (lookup item.hash found) [ none ↦ false | some b ↦ b ])) all
