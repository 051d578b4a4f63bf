-- ===== src/Ingest.antt =====
-- internal/app/ingest_text.go: the ingestion of a text. `Prepare` is the validation of the request
-- and the identity key, `Service` the transaction and the hook.
pub mod Prepare
pub mod Service
pub mod Steps
pub mod Contract
pub mod Once
pub mod Prepared
