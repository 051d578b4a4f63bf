-- ===== src/Sdd.antt =====
-- The living document of each workspace: app/sdd_document.go over postgres/sdd_documents.go.
pub mod Document
pub mod Storage
pub mod Service
pub mod Steps
pub mod Hook
pub mod Content
pub mod Merge
pub mod Placement
pub mod Race
pub mod Render
