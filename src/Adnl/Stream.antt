-- ===== src/Adnl/Stream.antt =====
-- A whole conversation over adnl-tcp/src/codec.rs: one side encodes packets into one buffer, the
-- other decodes until it has to wait.
use tonlibjson.Prelude.{
  ℕ, zero, suc, ◌≡◌, refl, none, some, List, [], ◌∷◌, ◌++◌, map, length, All, append_assoc,
  append-nil,
}
use tonlibjson.Adnl.Crypto.{StreamCipher, Sha256, BytesMut}
use tonlibjson.Adnl.Packet.{Packet}
use tonlibjson.Adnl.Codec.{PacketCodec, Decoded, ok, encode, decode}
use tonlibjson.Adnl.Frames.{IsPacket, encode_lem, decode-encode}

module _ {C : Type 0} (cipher : StreamCipher C) (sha : Sha256) (bytes : BytesMut) where
  -- The calls of `encode` for each packet, into one buffer.
  pub encode_all : PacketCodec C → List Packet → List ℕ → PacketCodec C × List ℕ
  encode_all codec [] dst = (codec, dst)
  encode_all codec (p ∷ ps) dst =
      let (codec', dst') = encode cipher sha bytes codec p dst in encode_all codec' ps dst'

  -- The answers of `n` calls of `decode`, and what the last one leaves.
  pub decode_each : ℕ → PacketCodec C → List ℕ → List Decoded × PacketCodec C × List ℕ
  decode_each zero codec src = ([], codec, src)
  decode_each (suc n) codec src =
      let d = decode cipher sha bytes codec src in
      let (answers, codec', src') = decode_each n d.codec d.src in
      (d.answer ∷ answers, codec', src')

  encode-append :
      (codec : PacketCodec C) (p : Packet) (dst : List ℕ)
      → encode cipher sha bytes codec p dst
        ≡ ((encode cipher sha bytes codec p []).0, dst ++ (encode cipher sha bytes codec p []).1)
  encode-append codec p dst =
      rw (encode_lem cipher sha bytes codec p []) (encode_lem cipher sha bytes codec p dst)

  encode_all-append :
      (codec : PacketCodec C) (ps : List Packet) (dst : List ℕ)
      → encode_all codec ps dst ≡ ((encode_all codec ps []).0, dst ++ (encode_all codec ps []).1)
  unfolding encode_all
  encode_all-append codec [] dst = rw append-nil
  encode_all-append codec (p ∷ ps) dst =
      let (codec', frame) = encode cipher sha bytes codec p [] in
      rw (
        encode-append codec p dst,
        encode_all-append codec' ps (dst ++ frame),
        encode_all-append codec' ps frame,
        append_assoc dst frame (encode_all codec' ps []).1,
      )

  -- When the receiver is in step with the sender and waits for no length, packets that are well
  -- formed come out as they went in, in their order; the two stay in step, and what follows the
  -- packets in the buffer is left.
  pub decode_each-encode_all :
      (ps : List Packet) (codec peer : PacketCodec C) (rest : List ℕ)
      → All (IsPacket sha) ps
      → peer.cipher_send ≡ codec.cipher_recv
      → codec.next_len ≡ none
      → decode_each (length ps) codec ((encode_all peer ps []).1 ++ rest) ≡ (
        map (λ p. ok (some p)) ps,
        record codec { cipher_recv = (encode_all peer ps []).0.cipher_send },
        rest,
      )
  unfolding encode_all decode_each
  decode_each-encode_all [] codec peer rest v same idle = rw same
  decode_each-encode_all (p ∷ ps) codec peer rest v same idle =
      let (peer', frame) = encode cipher sha bytes peer p [] in
      rw (
        encode_all-append peer' ps frame,
        append_assoc frame (encode_all peer' ps []).1 rest,
        decode-encode cipher sha bytes codec peer p ((encode_all peer' ps []).1 ++ rest) v.0 same
            idle,
        decode_each-encode_all ps (record codec { cipher_recv = peer'.cipher_send }) peer' rest v.1
            refl idle,
      )
