-- ===== src/Server.antt =====
-- The server half of the crate: src/server.
pub mod Conn
pub mod Negotiate
pub mod Preflight
pub mod Body
pub mod Cancellation
pub mod Requests
pub mod Respond
pub mod Streaming
pub mod Grpc
pub mod Bidi
pub mod Dispatch
