-- ===== src/Mcp.antt =====
-- The MCP side of the sidecar (sidecar/internal/mcp): the native tools and the peer.
pub mod Paths
pub mod Files
pub mod Writes
pub mod Commands
pub mod Tests
pub mod Message
pub mod Peer
pub mod Tool
pub mod Proxy
