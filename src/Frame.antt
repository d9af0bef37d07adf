-- ===== src/Frame.antt =====
-- src/frame: the length-prefixed messages of a gRPC body.
pub mod Writer
pub mod Source
pub mod Reader
