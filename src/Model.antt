-- ===== src/Model.antt =====
-- internal/model: the data that the stores, the services and the clients exchange.
pub mod Errors
pub mod Action
pub mod Book
pub mod Sync
pub mod Conflict
pub mod Upload
pub mod File
pub mod Device
