-- ===== src/Model/Upload.antt =====
-- internal/model/upload.go. A task has no times: nothing reads them.
use telebook_server.Prelude.{ℕ, String, Bool, List}
use telebook_server.Prelude.Int.{ℤ}
use telebook_server.Model.Book.{BookFileMeta}

pub data UploadStatus : Type 0 where
  uploading done_upload failed_upload : UploadStatus

pub record UploadBookTask : Type 0 where
  pub uuid : String
  pub name : String
  pub status : UploadStatus
  pub total_files : ℕ
  pub done_files : ℕ
  pub data_version : String
  pub device_id : String

pub record UploadInitBook : Type 0 where
  pub uuid : String
  pub client_id : String
  pub name : String
  pub files : List BookFileMeta
  pub data_version : String

pub record UploadInitBookResult : Type 0 where
  pub client_id : String
  pub uuid : String
  pub total_files : ℕ
  pub pending_files : List BookFileMeta

pub record UploadStatusResponse : Type 0 where
  pub uuid : String
  pub name : String
  pub status : UploadStatus
  pub total_files : ℕ
  pub done_files : ℤ
  pub pending_files : List BookFileMeta

-- The texts of `reason` that the code gives.
pub data CompleteReason : Type 0 where
  complete_ok incomplete : CompleteReason

pub record UploadCompleteResponse : Type 0 where
  pub uuid : String
  pub done : Bool
  pub reason : CompleteReason
  pub revision : ℕ
