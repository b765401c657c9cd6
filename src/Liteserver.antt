-- ===== src/Liteserver.antt =====
-- ton-liteserver-client/src/tl.rs: the requests to a liteserver, and where they go.
pub mod Requests
pub mod Routes
