-- ===== src/Blocks.antt =====
-- Which blocks a liteserver has: the search for its first block, and the bounds of its shards.
pub mod Search
pub mod FirstBlock
pub mod Bounds
pub mod Registry
pub mod Registered
pub mod Expected
pub mod Cursor
pub mod Channels
pub mod Handed
pub mod LastBlock
pub mod CursorClient
pub mod Liteserver
