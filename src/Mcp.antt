-- ===== src/Mcp.antt =====
-- The MCP server of src/mcp: the registry of the runs of a session, and the tool that talks to one of them.
pub mod Session
