-- ===== src/Store.antt =====
-- internal/store.
pub mod Memory
pub mod Orders
pub mod Uploads
pub mod Objects
pub mod Files
pub mod FileTable
pub mod Tokens
pub mod Devices
pub mod Events
pub mod Postgres
pub mod Library
pub mod Redis
pub mod Minio
pub mod Interfaces
