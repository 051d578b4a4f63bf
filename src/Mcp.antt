-- ===== src/Mcp.antt =====
-- internal/mcp: the MCP server over stdio, its tools and the client of the HTTP API.
pub mod Server
pub mod Client
pub mod Tools
pub mod Replies
