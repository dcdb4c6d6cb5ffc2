-- ===== src/Replay.antt =====
-- server/internal/replay: finished games as records, their store, and the check of a replay.
pub mod Types
pub mod Record
pub mod Lines
pub mod Grammar
pub mod Scan
pub mod Encode
pub mod Store
pub mod Replayer
pub mod Decode
pub mod Service
