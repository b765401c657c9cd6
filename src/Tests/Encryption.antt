-- ===== src/Tests/Encryption.antt =====
-- adnl-tcp/src/codec.rs and the handshake at concrete inputs.
use tonlibjson.Prelude.{
  ℕ, true, false, ◌≡◌, refl, none, some, List, [], ◌∷◌, ◌++◌, replicate, arith,
}
use tonlibjson.Adnl.Packet.{Packet, empty_packet, ping_packet, is_ping_packet, is_pong_packet}
use tonlibjson.Adnl.Codec.{PacketCodec, ok, decode, decode_length}
use tonlibjson.Adnl.Frames.{IsPacket}
use tonlibjson.Adnl.Chunks.{decode-append}
use tonlibjson.Adnl.Stream.{encode_all, decode_each, decode_each-encode_all}
use tonlibjson.Adnl.Handshake
use tonlibjson.Adnl.Handshake.{connect_hello, handshake}
use tonlibjson.Adnl.Agreement.{handshake_agrees}
use tonlibjson.Adnl.Crypto.{list_bytes}
use tonlibjson.Tests.Parameters.{ToyState, toy_cipher, toy_sha, toy_curve}

abbrev start : ToyState
start = record { key = []; counter = []; seen = 0 }

abbrev fresh : PacketCodec ToyState
fresh = record { cipher_recv = start; cipher_send = start; next_len = none }

abbrev nonce : List ℕ
nonce = replicate 32 1

abbrev hello : Packet
hello = record {
  nonce = nonce;
  checksum = toy_sha.digest (nonce ++ (7 ∷ 8 ∷ []));
  payload = 7 ∷ 8 ∷ [];
}

hello-IsPacket : IsPacket toy_sha hello
hello-IsPacket = record { nonce_size = refl; checked = refl; size = omega arith }

-- Three bytes are not enough for a length.
decode-append_example :
    decode toy_cipher toy_sha list_bytes fresh (1 ∷ 2 ∷ 3 ∷ 4 ∷ 5 ∷ [])
    ≡ decode toy_cipher toy_sha list_bytes
        (decode toy_cipher toy_sha list_bytes fresh (1 ∷ 2 ∷ 3 ∷ [])).codec
        ((decode toy_cipher toy_sha list_bytes fresh (1 ∷ 2 ∷ 3 ∷ [])).src ++ (4 ∷ 5 ∷ []))
unfolding decode decode_length
decode-append_example =
    decode-append toy_cipher toy_sha list_bytes fresh (1 ∷ 2 ∷ 3 ∷ []) (4 ∷ 5 ∷ []) refl

decode_each-encode_all_example :
    decode_each toy_cipher toy_sha list_bytes 2 fresh
      ((encode_all toy_cipher toy_sha list_bytes fresh (hello ∷ hello ∷ []) []).1 ++ (9 ∷ []))
    ≡ (
      ok (some hello) ∷ ok (some hello) ∷ [],
      record fresh {
        cipher_recv =
            (encode_all toy_cipher toy_sha list_bytes fresh (hello ∷ hello ∷ []) []).0.cipher_send;
      },
      9 ∷ [],
    )
decode_each-encode_all_example =
    decode_each-encode_all toy_cipher toy_sha list_bytes (hello ∷ hello ∷ []) fresh fresh (9 ∷ [])
      (hello-IsPacket, (hello-IsPacket, tt)) refl refl

handshake_agrees_example :
    (sent : List ℕ) × (mine : PacketCodec ToyState) × (theirs : PacketCodec ToyState)
    × (reply : List ℕ) × (connect_hello toy_cipher toy_sha list_bytes toy_curve
          (toy_curve.public_key 3)
          (replicate 160 5)
          4
        ≡ Handshake.ok (sent, mine))
    × (handshake toy_cipher toy_sha list_bytes toy_curve 3 nonce sent
        ≡ Handshake.ok (toy_curve.public_key 4, theirs, reply))
    × (decode toy_cipher toy_sha list_bytes mine reply ≡ record {
      codec = record mine { cipher_recv = theirs.cipher_send };
      src = [];
      answer = ok (some (empty_packet toy_sha nonce));
    })
    × (theirs.cipher_recv ≡ mine.cipher_send)
handshake_agrees_example =
    handshake_agrees toy_cipher toy_sha list_bytes toy_curve 3 4 (replicate 160 5) nonce refl refl

-- Pings and pongs are told apart.
ping_is_ping : is_ping_packet (ping_packet toy_sha nonce 5) ≡ true
unfolding ping_packet is_ping_packet
ping_is_ping = refl

ping_is_no_pong : is_pong_packet (ping_packet toy_sha nonce 5) ≡ false
unfolding ping_packet is_pong_packet
ping_is_no_pong = refl
