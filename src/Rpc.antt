-- ===== src/Rpc.antt =====
-- sidecar/internal/rpc: the server of the control socket.
pub mod Codec
pub mod Server
pub mod Reader
pub mod Frames
pub mod Replies
pub mod Fuel
pub mod Conn
pub mod Delivery
pub mod Session
mod Tests
