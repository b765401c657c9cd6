-- ===== src/Adnl/Handshake.antt =====
-- The handshake: adnl-tcp/src/aes_ctr.rs, key.rs, `Client::connect` of client.rs and
-- `Server::handshake` of server.rs. Random bytes and keys are arguments.
use tonlibjson.Prelude.{ℕ, ◌≡◌, Bool, true, false, List, [], ◌∷◌, ◌++◌, length, take, slice}
use tonlibjson.Prelude.Words.{bytes_eq}
use tonlibjson.Adnl.Crypto.{StreamCipher, Sha256, BytesMut}
use tonlibjson.Adnl.Packet.{Packet, empty_packet, is_empty}
use tonlibjson.Adnl.Codec.{PacketCodec, from_bytes_as_client, from_bytes_as_server, encode}

-- `ed25519_dalek`: `agree` is the product of a public key, taken to Montgomery form, and the
-- scalar of an expanded secret key; `is_public` is the test of `VerifyingKey::from_bytes`.
pub record Curve (S : Type 0) : Type 0 where
  pub public_key : S → List ℕ
  pub is_public : List ℕ → Bool
  pub agree : S → List ℕ → List ℕ
  pub length-public_key : (s : S) → length (public_key s) ≡ 32
  pub public_key-IsPublic : (s : S) → is_public (public_key s) ≡ true
  pub agree_comm : (s t : S) → agree s (public_key t) ≡ agree t (public_key s)

pub data HandshakeError : Type 0 where
  invalid_public_key wrong_server_key_id wrong_handshake_checksum : HandshakeError
  elapsed missed_empty_packet codec_error empty_packet_expected : HandshakeError

pub data Result {ℓ} (A : Type ℓ) : Type ℓ where
  ok : A → Result A
  err : HandshakeError → Result A

infixl 5 ◌>>=◌
abbrev pub ◌>>=◌ {ℓ κ} : {A : Type ℓ} {B : Type κ} → Result A → (A → Result B) → Result B
ok a >>= f = f a
err e >>= f = err e

abbrev pub guard : Bool → HandshakeError → Result (Unit {0})
guard true e = ok tt
guard false e = err e

infixl 5 ◌>>◌
abbrev pub ◌>>◌ {ℓ} : {B : Type ℓ} → Result (Unit {0}) → Result B → Result B
m >> k = m >>= λ _. k

-- `Ed25519KeyId`
abbrev pub key_type : List ℕ
key_type = 0xC6 ∷ 0xB4 ∷ 0x13 ∷ 0x48 ∷ []

unfoldable pub from_public_key_bytes : Sha256 → List ℕ → List ℕ
from_public_key_bytes sha public_key = sha.digest (key_type ++ public_key)

-- What `framed.next()` gave the client within five seconds.
pub data Received : Type 0 where
  timed_out closed failed : Received
  packet : Packet → Received

module _ {C S : Type 0} (cipher : StreamCipher C) (sha : Sha256) (bytes : BytesMut)
    (curve : Curve S) where
  open cipher use {new, apply}
  open sha use {digest}
  open curve use {public_key, is_public, agree}

  -- `AesCtr::cipher`
  unfoldable pub handshake_cipher : List ℕ → List ℕ → C
  handshake_cipher x y = new (take 16 x ++ slice 16 32 y) (take 4 y ++ slice 20 32 x)

  -- `AesCtr::encrypt`: the encrypted basis and its checksum.
  unfoldable pub encrypt : List ℕ → S → List ℕ → List ℕ × List ℕ
  unfolding handshake_cipher
  encrypt basis secret peer =
      let checksum = digest basis in
      ((apply (handshake_cipher (agree secret peer) checksum) basis).1, checksum)

  -- `AesCtr::from_encrypted`
  unfoldable pub from_encrypted : List ℕ → List ℕ → S → List ℕ → Result (List ℕ)
  unfolding handshake_cipher
  from_encrypted basis checksum secret peer = do
    let decrypted = (apply (handshake_cipher (agree secret peer) checksum) basis).1
    guard (bytes_eq (digest decrypted) checksum) wrong_handshake_checksum
    ok decrypted

  -- `Client::connect` up to the flush: the bytes sent, and the codec.
  unfoldable pub connect_hello : List ℕ → List ℕ → S → Result (List ℕ × PacketCodec C)
  connect_hello server_key basis client_key = do
    guard (is_public server_key) invalid_public_key
    let (encrypted, checksum) = encrypt basis client_key server_key
    ok (
      from_public_key_bytes sha server_key ++ (public_key client_key ++ (checksum ++ encrypted)),
      from_bytes_as_client cipher sha bytes basis,
    )

  -- `Client::connect` from there on: the server answers with an empty packet.
  unfoldable pub connect_finish : Received → Result (Unit {0})
  connect_finish timed_out = err elapsed
  connect_finish closed = err missed_empty_packet
  connect_finish failed = err codec_error
  connect_finish (packet p) = guard (is_empty p) empty_packet_expected

  -- `Server::handshake` on the 256 bytes that `read_exact` gave: the client's key, the codec, and
  -- the empty packet that is sent.
  unfoldable pub handshake : S → List ℕ → List ℕ → Result (List ℕ × PacketCodec C × List ℕ)
  handshake server_key nonce hello = do
    guard (bytes_eq (take 32 hello) (from_public_key_bytes sha (public_key server_key)))
        wrong_server_key_id
    guard (is_public (slice 32 64 hello)) invalid_public_key
    basis ← from_encrypted (slice 96 256 hello) (slice 64 96 hello) server_key (slice 32 64 hello)
    let codec = from_bytes_as_server cipher sha bytes basis
    let (codec', reply) = encode cipher sha bytes codec (empty_packet sha nonce) []
    ok (slice 32 64 hello, codec', reply)
