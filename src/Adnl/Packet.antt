-- ===== src/Adnl/Packet.antt =====
-- adnl-tcp/src/packet.rs and ping.rs. The random nonce is an argument.
use tonlibjson.Prelude.{ℕ, Bool, true, false, ◌&&◌, List, [], ◌∷◌, ◌++◌, length, ◌==◌}
use tonlibjson.Prelude.Words.{to_le_bytes}
use tonlibjson.Adnl.Crypto.{Sha256}

pub record Packet : Type 0 where
  pub nonce : List ℕ
  pub checksum : List ℕ
  pub payload : List ℕ

-- `Packet::new`: the checksum is the digest of the nonce and the data.
unfoldable pub new_packet : Sha256 → List ℕ → List ℕ → Packet
new_packet sha nonce payload = record {
  nonce = nonce;
  checksum = sha.digest (nonce ++ payload);
  payload = payload;
}

unfoldable pub empty_packet : Sha256 → List ℕ → Packet
unfolding new_packet
empty_packet sha nonce = new_packet sha nonce []

unfoldable pub is_empty : Packet → Bool
is_empty p = length p.payload == 0

unfoldable pub starts_with : List ℕ → List ℕ → Bool
starts_with bs [] = true
starts_with [] (p ∷ ps) = false
starts_with (b ∷ bs) (p ∷ ps) = b == p && starts_with bs ps

abbrev pub ping_crc32 : List ℕ
ping_crc32 = 0x9a ∷ 0x2b ∷ 0x08 ∷ 0x4d ∷ []

abbrev pub pong_crc32 : List ℕ
pong_crc32 = 0x03 ∷ 0xFB ∷ 0x69 ∷ 0xDC ∷ []

-- `random_id` is the query's `random::<u64>()`.
unfoldable pub ping_packet : Sha256 → List ℕ → ℕ → Packet
unfolding new_packet
ping_packet sha nonce random_id = new_packet sha nonce (ping_crc32 ++ to_le_bytes 8 random_id)

unfoldable pub is_ping_packet : Packet → Bool
unfolding starts_with
is_ping_packet p = length p.payload == 12 && starts_with p.payload ping_crc32

unfoldable pub is_pong_packet : Packet → Bool
unfolding starts_with
is_pong_packet p = length p.payload == 12 && starts_with p.payload pong_crc32
