-- ===== src/Adnl/Agreement.antt =====
-- The two ends of the handshake (adnl-tcp/src/client.rs and server.rs) agree.
use tonlibjson.Prelude.{
  ℕ, ◌≡◌, refl, sym, ◌∙◌, some, List, [], ◌++◌, length, take, slice, arith, append_assoc,
  append-nil, take-append_exact, slice-append, slice_end, length-append,
}
use tonlibjson.Prelude.Words.{bytes_eq_refl}
use tonlibjson.Adnl.Crypto.{StreamCipher, Sha256, BytesMut}
use tonlibjson.Adnl.Packet.{empty_packet}
use tonlibjson.Adnl.Codec
use tonlibjson.Adnl.Codec.{
  PacketCodec, Decoding, from_bytes_as_client, from_bytes_as_server, encode, decode,
}
use tonlibjson.Adnl.Frames.{IsPacket, encode_lem, decode-encode}
use tonlibjson.Adnl.Handshake.{
  Curve, ok, from_public_key_bytes, encrypt, from_encrypted, connect_hello, handshake,
}

-- The fields of the hello are where the server looks for them.
module _ (id key checksum encrypted : List ℕ) (i : length id ≡ 32) (k : length key ≡ 32)
    (c : length checksum ≡ 32) (n : length encrypted ≡ 160) where
  take-id : take 32 (id ++ (key ++ (checksum ++ encrypted))) ≡ id
  take-id = take-append_exact 32 id (key ++ (checksum ++ encrypted)) (sym i)

  slice-key : slice 32 64 (id ++ (key ++ (checksum ++ encrypted))) ≡ key
  slice-key = slice-append 32 64 id key (checksum ++ encrypted) (sym i) (omega arith)

  slice-checksum : slice 64 96 (id ++ (key ++ (checksum ++ encrypted))) ≡ checksum
  slice-checksum = rw (← append_assoc id key (checksum ++ encrypted)) (
      slice-append 64 96 (id ++ key) checksum encrypted (omega (arith, length-append id key))
        (omega (arith, length-append id key)))

  slice-encrypted : slice 96 256 (id ++ (key ++ (checksum ++ encrypted))) ≡ encrypted
  slice-encrypted =
      let before : length ((id ++ key) ++ checksum) ≡ 96 =
        omega (arith, length-append id key, length-append (id ++ key) checksum) in
      rw
        (
          ← append_assoc id key (checksum ++ encrypted),
          ← append_assoc (id ++ key) checksum encrypted,
        )
        (slice_end 96 256 ((id ++ key) ++ checksum) encrypted (omega arith) (omega arith))

module _ {C S : Type 0} (cipher : StreamCipher C) (sha : Sha256) (bytes : BytesMut)
    (curve : Curve S) where
  open cipher use {apply, apply_twice}
  open sha use {digest, length-digest}
  open curve use {public_key, length-public_key, public_key-IsPublic, agree_comm}

  -- The basis that one side encrypts for the other's key, the other decrypts.
  from_encrypted-encrypt :
      (server client : S) (basis : List ℕ)
      → let (encrypted, checksum) =
          encrypt cipher sha bytes curve basis client (public_key server) in
        from_encrypted cipher sha bytes curve encrypted checksum server (public_key client)
        ≡ ok basis
  unfolding encrypt from_encrypted
  from_encrypted-encrypt server client basis =
      rw (agree_comm server client, apply_twice _ basis, bytes_eq_refl (digest basis))

  length-id : (key : List ℕ) → length (from_public_key_bytes sha key) ≡ 32
  unfolding from_public_key_bytes
  length-id key = length-digest _

  length-checksum :
      (basis peer : List ℕ) (client : S)
      → length (encrypt cipher sha bytes curve basis client peer).1 ≡ 32
  unfolding encrypt
  length-checksum basis peer client = length-digest basis

  length-encrypted :
      (basis peer : List ℕ) (client : S)
      → length (encrypt cipher sha bytes curve basis client peer).0 ≡ length basis
  unfolding encrypt
  length-encrypted basis peer client = cipher.length-apply _ basis

  empty-IsPacket : (nonce : List ℕ) → length nonce ≡ 32 → IsPacket sha (empty_packet sha nonce)
  unfolding empty_packet
  empty-IsPacket nonce h = record { nonce_size = h; checked = refl; size = omega arith }

  handshake_accepts :
      (server client : S) (basis nonce : List ℕ)
      → length basis ≡ 160
      → let id = from_public_key_bytes sha (public_key server) in
        let (encrypted, checksum) =
          encrypt cipher sha bytes curve basis client (public_key server) in
        let ready = from_bytes_as_server cipher sha bytes basis in
        let (theirs, reply) = encode cipher sha bytes ready (empty_packet sha nonce) [] in
        handshake cipher sha bytes curve server nonce
          (id ++ (public_key client ++ (checksum ++ encrypted)))
        ≡ ok (public_key client, theirs, reply)
  unfolding handshake
  handshake_accepts server client basis nonce b =
      let id = from_public_key_bytes sha (public_key server) in
      let key = public_key client in
      let e = encrypt cipher sha bytes curve basis client (public_key server) in
      let i : length id ≡ 32 = length-id (public_key server) in
      let k = length-public_key client in
      let c : length e.1 ≡ 32 = length-checksum basis (public_key server) client in
      let n : length e.0 ≡ 160 = length-encrypted basis (public_key server) client ∙ b in
      rw (
        take-id id key e.1 e.0 i k c n,
        bytes_eq_refl id,
        slice-key id key e.1 e.0 i k c n,
        public_key-IsPublic client,
        slice-encrypted id key e.1 e.0 i k c n,
        slice-checksum id key e.1 e.0 i k c n,
        from_encrypted-encrypt server client basis,
      )

  -- The handshake succeeds, whatever the keys and the random bytes: the server accepts what the
  -- client sends, and takes the client's key from it; the client decodes the server's answer to the
  -- empty packet; then the ciphers are in step both ways.
  pub handshake_agrees :
      (server client : S) (basis nonce : List ℕ)
      → length basis ≡ 160
      → length nonce ≡ 32
      → (hello : List ℕ) × (mine : PacketCodec C) × (theirs : PacketCodec C) × (reply : List ℕ)
        × (connect_hello cipher sha bytes curve (public_key server) basis client ≡ ok (hello, mine))
        × (handshake cipher sha bytes curve server nonce hello
            ≡ ok (public_key client, theirs, reply))
        × (decode cipher sha bytes mine reply ≡ record {
          codec = record mine { cipher_recv = theirs.cipher_send };
          src = [];
          answer = Codec.ok (some (empty_packet sha nonce));
        })
        × (theirs.cipher_recv ≡ mine.cipher_send)
  unfolding connect_hello from_bytes_as_client from_bytes_as_server
  handshake_agrees server client basis nonce b n =
      let id = from_public_key_bytes sha (public_key server) in
      let key = public_key client in
      let (encrypted, checksum) = encrypt cipher sha bytes curve basis client (public_key server) in
      let hello = id ++ (key ++ (checksum ++ encrypted)) in
      let mine = from_bytes_as_client cipher sha bytes basis in
      let ready = from_bytes_as_server cipher sha bytes basis in
      let (theirs, reply) = encode cipher sha bytes ready (empty_packet sha nonce) [] in
      (
        hello,
        mine,
        theirs,
        reply,
        rw (public_key-IsPublic server),
        handshake_accepts server client basis nonce b,
        rw append-nil at (
            decode-encode cipher sha bytes mine ready (empty_packet sha nonce) []
              (empty-IsPacket nonce n) refl refl),
        rw (encode_lem cipher sha bytes ready (empty_packet sha nonce) []),
      )
