-- ===== src/Lib.antt =====
-- The server of the Telebook reader: devices push changes of a library of books, pull the events of
-- the other devices, resolve conflicts, upload the files of books and restore snapshots.
--
-- Parts and files. Paths are from the repository's root.
--   Model: internal/model, with errors as values (Model.Errors) and methods as functions from a
--     state to a result and a state (Model.Action). A json.RawMessage is an optional document of a
--     type that `Codec` (Model.Book) reads and writes, as encoding/json does.
--   Store.Memory: internal/store/memory_sync_store.go. `MemorySyncStore` is the state;
--     Entities (`ApplyChange`, `ForceUpsert`), Books (`ApplyBookChange`, `ForceUpsertBook`), Log
--     (`appendEventLocked`, `appendConflictLocked`), Restore (`RestoreLibrary`, `SnapshotLibrary`),
--     Reads (history, `ListAfterCursor`, cursors) and Conflicts (`ListOpen`, `Get`, `MarkResolved`)
--     are its methods, each one step, since each holds the mutex. Steps has the transition system;
--     Invariant, Preserves, Bookkeeping, Replay, Convergence, Paging, Cursors, Locking, Growth, Closing and
--     Restoration have the proofs.
--   Store.Interfaces: the interfaces of the stores, which Service.Sync takes as an argument and the
--     memory store fills (`memory_stores`).
--   Store.Events: internal/store/event_store.go over its tables of internal/store/db.go; Agreement
--     compares its pages with those of the memory store.
--   Store.Postgres: the other PostgreSQL stores of the synchronisation, over their tables of
--     internal/store/db.go (`SyncTables`), with transactions, constraints and sequences: Rows has the
--     statements that they share, Entities internal/store/entity_store.go, Books and Restore
--     internal/store/book_store.go, Conflicts internal/store/conflict_store.go, History
--     internal/store/history_store.go, and Stores puts them together (`pg_stores`). Steps has the
--     transition system, Replay what a client makes of the events; Convergence, Agreement, Progress,
--     Soundness, Preserves, Operations, Histories and Listing have the proofs.
--   Store.Redis: internal/store/redis_token_store.go and the Redis store of
--     internal/store/upload_order_store.go, over the calls of the client; Sharing is about the one
--     server that both use.
--   Store.Minio: internal/store/minio_object_store.go, over the calls of the client; Presigning is
--     about its cache of clients.
--   Store.FileTable: the PostgreSQL store of internal/store/file_store.go; Agreement compares it with
--     the one in memory.
--   Store.Library: internal/store/library_meta_store.go; Sorting, Order and Injective are about
--     what the version depends on.
--   Service.Sync: internal/service/sync_service.go. Histories turns each action into steps of the
--     memory store, Requests serves a sequence of requests, Pulling repeats `Pull`, Resolution is
--     about `ResolveConflict`; Backends compares a push over the two implementations of the stores,
--     Failures is about a push over PostgreSQL that stops; Draining resolves all conflicts,
--     Replaying repeats a change, Answering is about the results of a push.
--   Store.Uploads: internal/store/book_upload_store.go over its tables of internal/store/db.go;
--     Store.Orders: the memory store of internal/store/upload_order_store.go; Service.Upload:
--     internal/service/upload_service.go over both and over the interface of the books. Starting,
--     Completion and Stored follow an upload to its end, Outcomes has the ways in which a completion ends.
--   Store.Objects, Store.Files, Service.File: internal/store/object_store.go,
--     internal/store/file_store.go and internal/service/file_service.go, with the stores in memory
--     (Service.File.Memory). Checks, Direct and Multipart have the proofs.
--   Store.Tokens, Store.Devices, Service.Auth: internal/store/memory_token_store.go,
--     internal/store/device_store.go and internal/service/auth_service.go. Rotation,
--     Registration and Access have the proofs. Service.Jwt: internal/service/jwt_service.go.
--   Api: internal/api. Reply (response.go), Sync, Files, Upload, Auth and Health have the handlers and
--     the middleware, over the services, and Router the table of routes; Validation, Acceptance,
--     Uploaded, UploadErrors, Authenticated, Admission and Router.Protection have the proofs.
--   Config: internal/config/config.go.
--   Prelude: numbers, lists, Go's maps, and the texts that fmt prints. Tests: concrete runs.
--
-- How the parts interact: `Push` asks the file service whether the files of a book are there and
-- then calls the store of the books or of the other entities; a completed upload writes the book
-- through the same store, and so do a resolution and a restore, so that every write is an event
-- that the devices pull. The requests of several devices are one sequence, since every method of
-- the memory store holds its mutex; a request of several calls is taken as a whole.
--
-- Numbers: identifiers, revisions and sizes that the server counts are natural numbers, without the
-- bound of int64, which a server cannot reach by counting; what a client sends unchecked (a base
-- revision, a size, a page, a part number) is an integer. The order in which a map is walked, the
-- order of rows of a query, the order that `sort.Slice` gives to equal elements, the clock, and
-- random values are arguments.
-- Fuel: only the repeated pull has it, and as many pulls as the log has events, and one, are enough.
--
-- A transaction of PostgreSQL is one step too, although its test for a duplicate does not lock: two
-- pushes of one change id at the same time are not modelled, nor are two creations of one book.
-- Documents go through JSONB columns unchanged.
--
-- Client libraries (go-redis, minio-go, golang-jwt) are records of calls that the definitions take.
-- Not modelled: the web framework, with its search for a route, its parsing of bodies and numbers
-- and its messages, the text of the migrations, and cmd/server/main.go, which connects the parts.
-- Failures of the network and of the database apart from its keys and constraints do not
-- occur in the PostgreSQL stores and the stores in memory; the services are written for stores that
-- may fail.
pub mod Prelude
pub mod Model
pub mod Store
pub mod Service
pub mod Api
pub mod Config
mod Tests
