-- ===== src/Tests.antt =====
-- Runs of the model at concrete inputs, and the theorems applied there.
mod World
mod Lifecycle
mod Retry
mod Ingest
mod Tokens
mod Sdd
mod Backlog
mod Cursor
mod Telegram
mod Http
mod Mcp
mod Search
mod Runtime
