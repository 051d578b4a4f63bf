-- ===== src/Retry.antt =====
-- The queue of failed embeddings and the worker that drains it: app/embedding_retry.go,
-- app/embedding_hook.go and postgres/embedding_jobs.go.
pub mod Backoff
pub mod Queue
pub mod Service
pub mod Keys
pub mod Kept
pub mod Contract
