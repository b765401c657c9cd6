-- ===== src/Tracker.antt =====
-- The trackers of one liteserver, and the client that routes by them: ton-liteserver-client/src/.
pub mod Masterchain
pub mod Workchains
pub mod FirstBlocks
pub mod Tracked
