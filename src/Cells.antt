-- ===== src/Cells.antt =====
-- ton-liteserver-client/src/tlb/: the cells of a block header and of the shards, and their layouts.
pub mod Toner
pub mod Blocks
pub mod Layout
mod Flags
pub mod Header
pub mod Shards
pub mod Described
