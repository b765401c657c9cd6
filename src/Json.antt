-- ===== src/Json.antt =====
-- tonlibjson-client/src/client.rs: the client of the library in C++, whose answers a thread receives.
pub mod Responses
pub mod Pending
pub mod Received
pub mod Answered
