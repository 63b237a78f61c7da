-- ===== src/Service.antt =====
-- internal/service.
pub mod Sync
pub mod Upload
pub mod File
pub mod Auth
pub mod Jwt
