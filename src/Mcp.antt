-- ===== src/Mcp.antt =====
-- backend/mcp
pub mod Guard
