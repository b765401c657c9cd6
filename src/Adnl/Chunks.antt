-- ===== src/Adnl/Chunks.antt =====
-- `decode` of adnl-tcp/src/codec.rs does not depend on how the stream is cut into reads.
use tonlibjson.Prelude.{
  ℕ, ◌≤◌, ◌≡◌, ◌≢◌, refl, Option, none, some, false, List, ◌++◌, length, take, drop, ltb, arith,
  Bool-cases, inl, inr, length-append, take-append_le, drop-append_le,
}
use tonlibjson.Prelude.Words.{from_le_bytes}
use tonlibjson.Adnl.Crypto.{StreamCipher, Sha256, BytesMut}
use tonlibjson.Adnl.Codec.{PacketCodec, ok, decode_checked, decode_body, decode_length, decode}

module _ {C : Type 0} (cipher : StreamCipher C) (sha : Sha256) (bytes : BytesMut) where
  checked_answers :
      (codec : PacketCodec C) (len : ℕ) (src : List ℕ)
      → (decode_checked cipher sha bytes codec len src).answer ≢ ok none
  unfolding decode_checked
  checked_answers codec len src = ground arith

  body_waits :
      (codec : PacketCodec C) (len : ℕ) (src : List ℕ)
      → (decode_body cipher sha bytes codec len src).answer ≡ ok none
      → decode_body cipher sha bytes codec len src
        ≡ record { codec = record codec { next_len = some len }; src = src; answer = ok none }
  unfolding decode_body
  body_waits codec len src e = elim (Bool-cases (ltb len 64)) [
    | inl small ↦ cc (rw small at e)
    | inr large ↦ elim (Bool-cases (ltb (length src) len)) [
      | inl short ↦ rw (large, short)
      | inr full ↦ absurd (checked_answers _ len _ (rw (large, full) at e))
    ]
  ]

  -- The buffer may grow while the length is known.
  body-append :
      (c : PacketCodec C) (len : ℕ) (src more : List ℕ)
      → let codec = record c { next_len = none } in
        let d = decode_body cipher sha bytes codec len src in
        d.answer ≡ ok none
        → decode_body cipher sha bytes codec len (src ++ more)
          ≡ decode cipher sha bytes d.codec (d.src ++ more)
  unfolding decode decode_length
  body-append c len src more e = rw (body_waits (record c { next_len = none }) len src e)

  length-append-next :
      (codec : PacketCodec C) (next : Option ℕ) (src more : List ℕ)
      → let d = decode_length cipher sha bytes codec next src in
        d.answer ≡ ok none
        → decode_length cipher sha bytes codec next (src ++ more)
          ≡ decode cipher sha bytes d.codec (d.src ++ more)
  unfolding decode_length
  length-append-next codec (some len) src more e = body-append codec len src more e
  length-append-next codec none src more e = elim (Bool-cases (ltb (length src) 4)) [
    | inl short ↦ rw short (unfold decode in refl)
    | inr full ↦
        let here : 4 ≤ length src = ground arith in
        let there : 4 ≤ length (src ++ more) = omega (arith, length-append src more) in
        let long : ltb (length (src ++ more)) 4 ≡ false = ground arith in
        let split = bytes.split_to_lem 4 src here in
        let recv = cipher.apply codec.cipher_recv (take 4 src) in
        rw
          (
            full,
            long,
            split,
            bytes.split_to_lem 4 (src ++ more) there,
            take-append_le 4 src more here,
            drop-append_le 4 src more here,
          )
          (body-append (record codec { cipher_recv = recv.0 }) (from_le_bytes recv.1) (drop 4 src)
            more (rw (full, split) at e))
  ]

  -- Where `decode` waits for more input, it goes on as if it had seen all of it at once: a packet is
  -- found, or refused, however the bytes are cut into reads.
  pub decode-append :
      (codec : PacketCodec C) (src more : List ℕ)
      → (decode cipher sha bytes codec src).answer ≡ ok none
      → decode cipher sha bytes codec (src ++ more)
        ≡ decode cipher sha bytes
            (decode cipher sha bytes codec src).codec
            ((decode cipher sha bytes codec src).src ++ more)
  decode-append codec src more e =
      unfold decode in length-append-next codec codec.next_len src more e
