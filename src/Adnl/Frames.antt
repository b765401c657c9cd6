-- ===== src/Adnl/Frames.antt =====
-- `decode` of adnl-tcp/src/codec.rs reads back what `encode` wrote.
use tonlibjson.Prelude.{
  ℕ, ◌+◌, ◌-◌, ◌%◌, ◌^◌, ◌<◌, ◌≡◌, refl, sym, ap, none, some, true, false, List, [], ◌++◌, length,
  take, drop, ltb, arith, length-append, take-append_exact, drop-append_exact, append_assoc,
  append-nil,
}
use tonlibjson.Prelude.Words.{to_le_bytes, from_le_bytes, bytes_eq, bytes_eq_refl}
use tonlibjson.Adnl.Crypto.{StreamCipher, Sha256, BytesMut}
use tonlibjson.Adnl.Packet.{Packet}
use tonlibjson.Adnl.Codec.{
  PacketCodec, ok, encode, decode_checked, decode_body, decode_length, decode,
}

-- The checksum is that of the nonce and the data, and the length fits the `u32` before the packet.
pub record IsPacket (sha : Sha256) (p : Packet) : Type 0 where
  pub nonce_size : length p.nonce ≡ 32
  pub checked : p.checksum ≡ sha.digest (p.nonce ++ p.payload)
  pub size : length p.payload + 64 < 2 ^ 32

-- A packet's bytes before they are encrypted.
abbrev frame_size : Packet → List ℕ
frame_size p = to_le_bytes 4 ((length p.payload + 64) % 2 ^ 32)

abbrev frame_body : Packet → List ℕ
frame_body p = p.nonce ++ (p.payload ++ p.checksum)

module _ {C : Type 0} (cipher : StreamCipher C) (sha : Sha256) (bytes : BytesMut) where
  open cipher use {apply}

  buffer :
      (size dst : List ℕ) (p : Packet)
      → bytes.put (bytes.put (bytes.put (bytes.put dst size) p.nonce) p.payload) p.checksum
        ≡ dst ++ (size ++ frame_body p)
  buffer size dst p = simp (bytes.put_lem, append_assoc)

  -- `encode` appends the encrypted bytes, and moves the sending cipher on.
  pub encode_lem :
      (codec : PacketCodec C) (p : Packet) (dst : List ℕ)
      → let (send, frame) = apply codec.cipher_send (frame_size p ++ frame_body p) in
        encode cipher sha bytes codec p dst ≡ (record codec { cipher_send = send }, dst ++ frame)
  unfolding encode
  encode_lem codec p dst =
      let frame = frame_size p ++ frame_body p in
      rw (
        buffer (frame_size p) dst p,
        drop-append_exact (length dst) dst frame refl,
        take-append_exact (length dst) dst frame refl,
      )

  -- The cuts that `decode` makes in a packet of `len` bytes, in front of `rest`.
  module _ (p : Packet) (len : ℕ) (rest : List ℕ) (v : IsPacket sha p)
      (e : len ≡ length p.payload + 64) where
    length-head : len - 32 ≡ length (p.nonce ++ p.payload)
    length-head = omega (arith, length-append p.nonce p.payload, v.nonce_size)

    length-frame_body : len ≡ length (frame_body p)
    length-frame_body = omega (
      arith,
      length-append p.nonce (p.payload ++ p.checksum),
      length-append p.payload p.checksum,
      v.nonce_size,
      ap length v.checked,
      sha.length-digest (p.nonce ++ p.payload),
    )

    regrouped : (p.nonce ++ p.payload) ++ p.checksum ≡ frame_body p
    regrouped = append_assoc p.nonce p.payload p.checksum

    take-head : (more : List ℕ) → take (len - 32) (frame_body p ++ more) ≡ p.nonce ++ p.payload
    take-head more =
        rw (← regrouped, append_assoc (p.nonce ++ p.payload) p.checksum more)
          (take-append_exact (len - 32) (p.nonce ++ p.payload) (p.checksum ++ more) length-head)

    take-frame : (more : List ℕ) → take len (frame_body p ++ more) ≡ frame_body p
    take-frame more = take-append_exact len (frame_body p) more length-frame_body

    drop-head : drop (len - 32) (frame_body p) ≡ p.checksum
    drop-head =
        rw (← regrouped)
          (drop-append_exact (len - 32) (p.nonce ++ p.payload) p.checksum length-head)

    take-nonce : take 32 (frame_body p) ≡ p.nonce
    take-nonce = take-append_exact 32 p.nonce (p.payload ++ p.checksum) (sym v.nonce_size)

    drop-nonce : drop 32 (p.nonce ++ p.payload) ≡ p.payload
    drop-nonce = drop-append_exact 32 p.nonce p.payload (sym v.nonce_size)

    split-frame : bytes.split_to len (frame_body p ++ rest) ≡ (frame_body p, rest)
    split-frame = rw (
      bytes.split_to_lem len (frame_body p ++ rest)
          (omega (arith, length-append (frame_body p) rest, length-frame_body)),
      take-frame rest,
      drop-append_exact len (frame_body p) rest length-frame_body,
    )

    passes : bytes_eq (sha.digest (p.nonce ++ p.payload)) p.checksum ≡ true
    passes = rw v.checked (bytes_eq_refl (sha.digest (p.nonce ++ p.payload)))

    take-frame_self : take len (frame_body p) ≡ frame_body p
    take-frame_self = rw append-nil at (take-frame [])

    take-head_self : take (len - 32) (frame_body p) ≡ p.nonce ++ p.payload
    take-head_self = rw append-nil at (take-head [])

    -- The packet is taken apart again.
    checked-frame_body :
        (codec : PacketCodec C)
        → decode_checked cipher sha bytes codec len (frame_body p ++ rest)
          ≡ record { codec = codec; src = rest; answer = ok (some p) }
    unfolding decode_checked
    checked-frame_body codec = rw (
      take-head rest,
      take-frame rest,
      drop-head,
      passes,
      split-frame,
      take-frame_self,
      drop-head,
      take-nonce,
      take-head_self,
      drop-nonce,
    )

    body-frame_body :
        (c : PacketCodec C)
        → let codec = record c { next_len = none } in
          let (recv, frame) = apply c.cipher_recv (frame_body p) in
          decode_body cipher sha bytes codec len (frame ++ rest)
          ≡ record { codec = record codec { cipher_recv = recv }; src = rest; answer = ok (some p) }
    unfolding decode_body
    body-frame_body c =
        let frame = (apply c.cipher_recv (frame_body p)).1 in
        let size : len ≡ length frame =
          omega (arith, length-frame_body, cipher.length-apply c.cipher_recv (frame_body p)) in
        let large : ltb len 64 ≡ false = ground arith in
        let full : ltb (length (frame ++ rest)) len ≡ false =
          ground (arith, length-append frame rest) in
        rw
          (
            large,
            full,
            take-append_exact len frame rest size,
            drop-append_exact len frame rest size,
            cipher.apply_twice c.cipher_recv (frame_body p),
          )
          (checked-frame_body _)

  size_reads : (n : ℕ) → n < 2 ^ 32 → from_le_bytes (to_le_bytes 4 (n % 2 ^ 32)) ≡ n
  size_reads n h = omega arith

  length-frame :
      (c : PacketCodec C) (p : Packet) (rest : List ℕ)
      → IsPacket sha p
      → let (recv, frame) = apply c.cipher_recv (frame_size p ++ frame_body p) in
        decode_length cipher sha bytes c none (frame ++ rest) ≡ record {
          codec = record c { next_len = none; cipher_recv = recv };
          src = rest;
          answer = ok (some p);
        }
  unfolding decode_length
  length-frame c p rest v =
      let s = c.cipher_recv in
      let size = apply s (frame_size p) in
      let body = apply size.0 (frame_body p) in
      let four : 4 ≡ length size.1 = omega (arith, cipher.length-apply s (frame_size p)) in
      let long : ltb (length (size.1 ++ (body.1 ++ rest))) 4 ≡ false =
        ground (arith, length-append size.1 (body.1 ++ rest)) in
      let split =
        bytes.split_to_lem 4 (size.1 ++ (body.1 ++ rest))
          (omega (arith, length-append size.1 (body.1 ++ rest))) in
      rw
        (
          cipher.apply-append s (frame_size p) (frame_body p),
          append_assoc size.1 body.1 rest,
          long,
          split,
          take-append_exact 4 size.1 (body.1 ++ rest) four,
          drop-append_exact 4 size.1 (body.1 ++ rest) four,
          cipher.apply_twice s (frame_size p),
          size_reads (length p.payload + 64) v.size,
        )
        (body-frame_body p (length p.payload + 64) rest v refl (record c { cipher_recv = size.0 }))

  -- A packet that the peer encoded is decoded, with nothing else taken, and the two ciphers are
  -- in step again.
  pub decode-encode :
      (codec peer : PacketCodec C) (p : Packet) (rest : List ℕ)
      → IsPacket sha p
      → peer.cipher_send ≡ codec.cipher_recv
      → codec.next_len ≡ none
      → let (peer', frame) = encode cipher sha bytes peer p [] in
        decode cipher sha bytes codec (frame ++ rest) ≡ record {
          codec = record codec { cipher_recv = peer'.cipher_send };
          src = rest;
          answer = ok (some p);
        }
  unfolding decode
  decode-encode codec peer p rest v same idle =
      rw (encode_lem peer p [], same, idle)
        (length-frame (record codec { next_len = none }) p rest v)
