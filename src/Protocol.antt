-- ===== src/Protocol.antt =====
-- server/internal/protocol: the JSON contract as Go types, and its validation.
pub mod Types
pub mod Board
pub mod Codes
pub mod Clone
pub mod Validate
