-- ===== src/Tl.antt =====
-- The TL wire format: adnl-tcp/src/serializer.rs, deserializer.rs and types.rs. A byte is a number,
-- a byte slice or a `Vec<u8>` a list of them, and a machine word is read by its bit pattern.
pub mod Buf
pub mod Serializer
pub mod Deserializer
pub mod Types
pub mod Scalars
pub mod Padding
pub mod Strings
pub mod Vectors
pub mod Dispatch
