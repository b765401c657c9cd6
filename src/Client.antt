-- ===== src/Client.antt =====
-- The client of one liteserver: ton-liteserver-client/src/client.rs.
pub mod Actor
pub mod Answers
