-- ===== src/Api.antt =====
-- The session state of the HTTP and MCP servers: src/api, src/mcp.
pub mod Grants
pub mod Session
pub mod Cookies
mod Tests
