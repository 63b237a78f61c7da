-- ===== src/Model/File.antt =====
-- internal/model/file.go, and `UploadPartMeta` of internal/store/object_store.go.
use telebook_server.Prelude.{String, Bool}
use telebook_server.Prelude.Int.{ℤ}

pub record FileCheckItem : Type 0 where
  pub hash : String
  pub size : ℤ

pub record FileInitUploadResponse : Type 0 where
  pub upload_id : String
  pub complete : Bool

pub record UploadPartMeta : Type 0 where
  pub part_number : ℤ
  pub etag : String
