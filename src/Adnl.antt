-- ===== src/Adnl.antt =====
-- ADNL over TCP: adnl-tcp/src/packet.rs, ping.rs, codec.rs, aes_ctr.rs, key.rs, client.rs, server.rs.
-- The ciphers, the digest and the curve are parameters, with what their documentation promises.
pub mod Crypto
pub mod Packet
pub mod Codec
pub mod Chunks
pub mod Frames
pub mod Stream
pub mod Handshake
pub mod Agreement
