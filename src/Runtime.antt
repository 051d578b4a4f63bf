-- ===== src/Runtime.antt =====
-- The start and the end of the process: internal/config, internal/migrations and
-- internal/runtime/shutdown.go.
pub mod Config
pub mod Shutdown
pub mod Migrations
pub mod Bounds
pub mod Atomic
