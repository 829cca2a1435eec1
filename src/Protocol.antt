-- ===== src/Protocol.antt =====
-- src/protocol: the Skyhash/2 decoder (mod.rs), the pipeline decoder (pipe.rs) and the handshake
-- (handshake.rs).
pub mod Outcome
pub mod Cursor
pub mod Extend
pub mod State
pub mod Lfs
pub mod Sp
pub mod Value
pub mod Stream
pub mod Multi
pub mod Validate
pub mod Pipe
pub mod Wire
