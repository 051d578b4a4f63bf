-- ===== src/Search.antt =====
-- Search: app/retrieval.go, app/collision.go and app/composite_retriever.go.
pub mod Query
pub mod Collide
pub mod Merge
pub mod Fused
pub mod Failures
pub mod Collisions
