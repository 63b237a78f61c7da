-- ===== src/Tests.antt =====
-- Runs of the modelled code on concrete inputs, and the theorems at such inputs.
mod Sample
mod SyncRuns
mod StoreRuns
mod UploadRuns
mod FileRuns
mod AuthRuns
mod ApiRuns
mod TableRuns
mod PostgresRuns
mod TokenRuns
