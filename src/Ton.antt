-- ===== src/Ton.antt =====
-- The client that applications use: tonlibjson-client/src/ton.rs and the requests of block.rs.
pub mod Stream
pub mod Requests
pub mod Messages
pub mod Pages
pub mod Paged
pub mod Meet
pub mod Met
pub mod History
pub mod Ranges
pub mod Client
pub mod Windows
pub mod Plan
pub mod Pieces
pub mod FirstTx
pub mod Retry
pub mod ShardAddress
