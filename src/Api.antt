-- ===== src/Api.antt =====
-- internal/api: the handlers, from what gin has read of the request to the answer.
pub mod Reply
pub mod Sync
pub mod Validation
pub mod Upload
pub mod UploadErrors
pub mod Auth
pub mod Authenticated
pub mod Files
pub mod Uploaded
pub mod Acceptance
pub mod Router
pub mod Health
pub mod Admission
