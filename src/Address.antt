-- ===== src/Address.antt =====
-- tonlibjson-client/src/address.rs: the addresses of accounts, parsed and printed.
pub mod Account
pub mod Printed
