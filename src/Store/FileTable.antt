-- ===== src/Store/FileTable.antt =====
-- internal/store/file_store.go: `PGFileStore` over the table `file_meta` of internal/store/db.go.
-- The columns with times are left out: nothing reads them.
pub mod Agreement
use telebook_server.Prelude.{
  String, Bool, true, false, ◌||◌, List, [], ◌∷◌, GoMap, lookup, insert, is_some, ◌==◌,
  if◌then◌else◌,
}
use telebook_server.Prelude.Int.{ℤ}
use telebook_server.Model.Errors.{ok}
use telebook_server.Model.Action.{Action}
use telebook_server.Store.Files.{FileStore}

-- A row besides its key `hash`.
pub record FileMeta : Type 0 where
  pub size : ℤ
  pub mime_type : String

abbrev pub FileTable : Type 0
FileTable = GoMap FileMeta

-- `ON CONFLICT` keeps the row.
unfoldable pub upsert_row : String → ℤ → String → Action FileTable (Unit {0})
upsert_row hash size mime_type t = (
  ok tt,
  if is_some (lookup hash t)
      then t
      else insert hash (record { size = size; mime_type = mime_type }) t,
)

-- `hash = ANY($1)`.
unfoldable pub any_of : List String → String → Bool
any_of [] hash = false
any_of (h ∷ hs) hash = h == hash || any_of hs hash

-- The loop over the rows of the query.
unfoldable pub found_rows : List String → FileTable → GoMap Bool
found_rows hashes [] = []
found_rows hashes ((hash, row) ∷ rest) =
    let found = found_rows hashes rest in
    if any_of hashes hash then insert hash true found else found

-- Without hashes nothing is asked, and nothing is found either way.
unfoldable pub pg_has_hashes : List String → Action FileTable (GoMap Bool)
pg_has_hashes [] t = (ok [], t)
pg_has_hashes (h ∷ hs) t = (ok (found_rows (h ∷ hs) t), t)

abbrev pub pg_file_store : FileStore FileTable
pg_file_store = record { upsert_meta = upsert_row; has_hashes = pg_has_hashes }
