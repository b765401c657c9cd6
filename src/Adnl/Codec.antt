-- ===== src/Adnl/Codec.antt =====
-- adnl-tcp/src/codec.rs: the framing of packets over an encrypted stream.
use tonlibjson.Prelude.{
  ℕ, ◌+◌, ◌-◌, ◌%◌, ◌^◌, Option, none, some, List, ◌++◌, length, take, drop, ltb, if◌then◌else◌,
}
use tonlibjson.Prelude.Words.{to_le_bytes, from_le_bytes, bytes_eq}
use tonlibjson.Adnl.Crypto.{StreamCipher, Sha256, BytesMut}
use tonlibjson.Adnl.Packet.{Packet}

pub record PacketCodec (C : Type 0) : Type 0 where
  pub cipher_recv : C
  pub cipher_send : C
  pub next_len : Option ℕ

pub data DecodeError : Type 0 where
  small_packet incorrect_checksum : DecodeError

pub data Decoded : Type 0 where
  ok : Option Packet → Decoded
  err : DecodeError → Decoded

-- What `decode` leaves: the codec, the source buffer, and its answer.
pub record Decoding (C : Type 0) : Type 0 where
  pub codec : PacketCodec C
  pub src : List ℕ
  pub answer : Decoded

module _ {C : Type 0} (cipher : StreamCipher C) (sha : Sha256) (bytes : BytesMut) where
  open cipher use {new, apply}
  open bytes use {put, split_to}

  -- The new codec and destination. The length is written as a `u32`.
  unfoldable pub encode : PacketCodec C → Packet → List ℕ → PacketCodec C × List ℕ
  encode codec packet dst =
      let buf_size = length dst in
      let len = put dst (to_le_bytes 4 ((length packet.payload + 64) % 2 ^ 32)) in
      let dst' = put (put (put len packet.nonce) packet.payload) packet.checksum in
      let (send, frame) = apply codec.cipher_send (drop buf_size dst') in
      (record codec { cipher_send = send }, take buf_size dst' ++ frame)

  -- The decrypted `src` holds a packet of `len` bytes.
  unfoldable pub decode_checked : PacketCodec C → ℕ → List ℕ → Decoding C
  decode_checked codec len src =
      if bytes_eq (sha.digest (take (len - 32) src)) (drop (len - 32) (take len src))
      then record {
        codec = codec;
        src = (split_to len src).1;
        answer =
            let frame = (split_to len src).0 in
            ok (
              some (record {
                nonce = take 32 frame;
                checksum = drop (len - 32) (take len frame);
                payload = drop 32 (take (len - 32) frame);
              }));
      }
      else record { codec = codec; src = src; answer = err incorrect_checksum }

  -- `length` is known, and `next_len` taken.
  unfoldable pub decode_body : PacketCodec C → ℕ → List ℕ → Decoding C
  decode_body codec len src =
      if ltb len 64
      then record { codec = codec; src = src; answer = err small_packet }
      else if ltb (length src) len
      then record { codec = record codec { next_len = some len }; src = src; answer = ok none }
      else let (recv, plain) = apply codec.cipher_recv (take len src) in
        decode_checked (record codec { cipher_recv = recv }) len (plain ++ drop len src)

  unfoldable pub decode_length : PacketCodec C → Option ℕ → List ℕ → Decoding C
  decode_length codec (some len) src = decode_body (record codec { next_len = none }) len src
  decode_length codec none src =
      if ltb (length src) 4
      then record { codec = record codec { next_len = none }; src = src; answer = ok none }
      else let (len, src') = split_to 4 src in
        let (recv, plain) = apply codec.cipher_recv len in
        decode_body (record codec { next_len = none; cipher_recv = recv }) (from_le_bytes plain)
          src'

  unfoldable pub decode : PacketCodec C → List ℕ → Decoding C
  decode codec src = decode_length codec codec.next_len src

  -- `from_bytes_as_client`: the first key and counter are for receiving.
  unfoldable pub from_bytes_as_client : List ℕ → PacketCodec C
  from_bytes_as_client basis = record {
    cipher_recv = new (take 32 basis) (drop 64 (take 80 basis));
    cipher_send = new (drop 32 (take 64 basis)) (drop 80 (take 96 basis));
    next_len = none;
  }

  -- `from_bytes_as_server`: the first key and counter are for sending.
  unfoldable pub from_bytes_as_server : List ℕ → PacketCodec C
  from_bytes_as_server basis = record {
    cipher_recv = new (drop 32 (take 64 basis)) (drop 80 (take 96 basis));
    cipher_send = new (take 32 basis) (drop 64 (take 80 basis));
    next_len = none;
  }
