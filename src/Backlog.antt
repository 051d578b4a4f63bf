-- ===== src/Backlog.antt =====
-- The worklist of a workspace: app/object_debate_backlog.go, app/cursor.go and
-- postgres/backlog_query_repo.go.
pub mod Cursor
pub mod Wire
pub mod Query
pub mod Order
pub mod Pages
pub mod Walk
