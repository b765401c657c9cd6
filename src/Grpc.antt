-- ===== src/Grpc.antt =====
-- ton-grpc/src/helpers.rs and account.rs: the bounds of a request for the transactions of an account.
pub mod Helpers
pub mod Between
pub mod State
