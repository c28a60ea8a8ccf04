-- ===== src/Process.antt =====
-- agent/process: the client and the server of the remote process runner.
pub mod Types
pub mod Sink
pub mod Stream
pub mod Writer
pub mod Client
pub mod Server
pub mod Session
mod Tests
