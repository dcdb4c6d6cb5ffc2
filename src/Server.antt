-- ===== src/Server.antt =====
-- server/main.go: the parts of the HTTP server that hold its own logic.
pub mod Bytes
pub mod Frames
pub mod Ledger
pub mod Limits
pub mod Origin
pub mod Settings
pub mod Pages
pub mod Session
