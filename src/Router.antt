-- ===== src/Router.antt =====
-- The choice of liteservers for a request: ton-client-util/src/router/ and src/discover/.
pub mod Route
pub mod Block
pub mod ShardPrefix
pub mod Latest
pub mod Services
pub mod Shared
pub mod Discover
pub mod Discovered
