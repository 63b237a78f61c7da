-- ===== src/Store/Orders.antt =====
-- internal/store/upload_order_store.go: `MemoryUploadOrderStore`. The copies of the lists that the
-- code makes are the values themselves here.
use telebook_server.Prelude.{String, List, [], none, some, GoMap, lookup, insert, erase}
use telebook_server.Model.Errors.{Error, Result, ok, err}
use telebook_server.Model.Book.{BookFileMeta}

pub record MemoryUploadOrderStore : Type 0 where
  pub order : GoMap (List BookFileMeta)

unfoldable pub new_memory_upload_order_store : MemoryUploadOrderStore
new_memory_upload_order_store = record { order = [] }

unfoldable pub save_order :
    String → List BookFileMeta → MemoryUploadOrderStore → Result (Unit {0}) × MemoryUploadOrderStore
save_order uuid files s = (ok tt, record { order = insert uuid files s.order })

unfoldable pub load_order :
    String → MemoryUploadOrderStore → Result (List BookFileMeta) × MemoryUploadOrderStore
load_order uuid s = elim (lookup uuid s.order) [
  | none ↦ (err Error.upload_order_lost, s)
  | some files ↦ (ok files, s)
]

unfoldable pub delete_order :
    String → MemoryUploadOrderStore → Result (Unit {0}) × MemoryUploadOrderStore
delete_order uuid s = (ok tt, record { order = erase uuid s.order })
