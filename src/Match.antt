-- ===== src/Match.antt =====
-- server/internal/match: rooms of two players and the manager that assigns them.
pub mod Types
pub mod Hub
pub mod Room
pub mod Manager
