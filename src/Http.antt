-- ===== src/Http.antt =====
-- internal/httpapi and internal/runtime/server.go: the HTTP API.
pub mod Message
pub mod Handlers
pub mod Secret
pub mod Auth
pub mod Limit
pub mod Problem
pub mod Server
pub mod Routing
pub mod Access
pub mod Gate
pub mod Reading
pub mod Storing
pub mod Effects
pub mod Tables
pub mod Once
