-- ===== src/Tests.antt =====
-- The theorems applied to concrete values, and runs of the definitions.
mod Values
mod Contract
mod Rooms
mod Managers
mod LocalGame
mod Records
mod Texts
mod Server
mod Desk
