-- ===== src/Address/Printed.antt =====
-- tonlibjson-client/src/address.rs: an address that is printed is parsed back.
use tonlibjson.Prelude.{
  ℕ, ◌+◌, ◌*◌, ◌/◌, ◌%◌, ◌^◌, ◌≡◌, ◌<◌, refl, sym, ◌∙◌, true, false, Option, none, some, List, [],
  ◌∷◌, ◌++◌, map, length, length-append, take-append_exact, ◌==◌, All, Option-cases, inl, inr,
  arith,
}
use tonlibjson.Prelude.Int.{ℤ, pos, negsuc}
use tonlibjson.Address.Account.{
  Coding, AccountAddressData, valid, split_colon, to_standard, chain_of_byte, byte_of_chain,
  from_str, to_raw_string, payload, to_flagged_string, to_string, context_from_str,
  context_to_string, into_shard_context,
}

abbrev pub IsBytes : List ℕ → Type 0
IsBytes bs = All (λ b. b < 256) bs

abbrev pub HasNoColon : List ℕ → Type 0
HasNoColon bs = All (λ b. (b == 58) ≡ false) bs

abbrev pub IsI32 : ℤ → Type 0
IsI32 (pos n) = n < 2 ^ 31
IsI32 (negsuc n) = n < 2 ^ 31

-- What the crates and the standard library document.
pub record IsDocumented (coding : Coding) : Type 0 where
  pub hex_round :
      (bs : List ℕ)
      → IsBytes bs
      → length bs ≡ 32
      → coding.hex_decode_to_32 (coding.hex_encode bs) ≡ some bs
  pub hex_length : (s bs : List ℕ) → coding.hex_decode_to_32 s ≡ some bs → length s ≡ 64
  pub alphabets :
      (bs : List ℕ)
      → IsBytes bs
      → map to_standard (coding.url_safe_encode bs) ≡ coding.standard_encode bs
  pub standard_round :
      (bs : List ℕ) → IsBytes bs → coding.standard_decode (coding.standard_encode bs) ≡ some bs
  pub url_safe_length :
      (bs : List ℕ) → length (coding.url_safe_encode bs) ≡ 4 * ((length bs + 2) / 3)
  pub url_safe_characters : (bs : List ℕ) → IsBytes bs → HasNoColon (coding.url_safe_encode bs)
  pub i32_round : (z : ℤ) → IsI32 z → coding.parse_i32 (coding.print_i32 z) ≡ some z
  pub i32_characters : (z : ℤ) → HasNoColon (coding.print_i32 z)
  pub checksum_16 : (bs : List ℕ) → coding.checksum bs < 2 ^ 16

-- A chain that fits the byte of a flagged address: -1, or from 0 to 254.
abbrev pub IsOneByte : ℤ → Type 0
IsOneByte (pos n) = n < 255
IsOneByte (negsuc n) = n ≡ 0

abbrev pub FitsFlags : Option ℕ → ℤ → Type 0
FitsFlags none chain_id = IsI32 chain_id
FitsFlags (some flags) chain_id = (flags < 256) × IsOneByte chain_id

pub record IsAccount (a : AccountAddressData) : Type 0 where
  pub are_bytes : IsBytes a.bytes
  pub count : length a.bytes ≡ 32
  pub fits : FitsFlags a.flags a.chain_id

split_colon-append : (xs ys : List ℕ) → HasNoColon xs → split_colon (xs ++ 58 ∷ ys) ≡ some (xs, ys)
unfolding split_colon
split_colon-append [] ys h = refl
split_colon-append (x ∷ xs) ys (h, hs) = rw (h, split_colon-append xs ys hs)

split_colon-none : (xs : List ℕ) → HasNoColon xs → split_colon xs ≡ none
unfolding split_colon
split_colon-none [] h = refl
split_colon-none (x ∷ xs) (h, hs) = rw (h, split_colon-none xs hs)

chain_of_byte-byte_of_chain : (z : ℤ) → IsOneByte z → chain_of_byte (byte_of_chain z) ≡ z
chain_of_byte-byte_of_chain (pos n) h =
    let small : n % 256 ≡ n = omega (arith, h) in
    let other : ((n + 1) == 0) ≡ false = ground arith in
    let last : (n == 255) ≡ false = ground arith in rw (other, small, last)
chain_of_byte-byte_of_chain (negsuc n) h = rw h

is_byte : (z : ℤ) → IsOneByte z → byte_of_chain z < 256
is_byte (pos n) h = let other : ((n + 1) == 0) ≡ false = ground arith in rw other (omega arith)
is_byte (negsuc n) h = rw h (omega arith)

All-append : {A : Type 0} (P : A → Type 0) (xs ys : List A) → All P xs → All P ys → All P (xs ++ ys)
All-append P [] ys h k = k
All-append P (x ∷ xs) ys (h, hs) k = (h, All-append P xs ys hs k)

module _ (coding : Coding) (laws : IsDocumented coding) where
  raw :
      (chain : ℤ) (bs : List ℕ)
      → IsBytes bs
      → length bs ≡ 32
      → IsI32 chain
      → from_str coding
          (to_raw_string coding (record { chain_id = chain; bytes = bs; flags = none }))
        ≡ valid (record { chain_id = chain; bytes = bs; flags = none })
  unfolding from_str to_raw_string
  raw chain bs h n i = rw (
    split_colon-append (coding.print_i32 chain) (coding.hex_encode bs) (laws.i32_characters chain),
    laws.i32_round chain i,
    laws.hex_round bs h n,
  )

  -- A string of another length is no hex.
  not_hex : (s : List ℕ) → length s ≡ 48 → coding.hex_decode_to_32 s ≡ none
  not_hex s e = elim (Option-cases (coding.hex_decode_to_32 s)) [
    | inl none_there ↦ none_there
    | inr (bs, f) ↦ absurd (omega (arith, e, laws.hex_length s bs f))
  ]

  flagged :
      (flags chain : ℕ) (bs : List ℕ) (c : ℕ)
      → IsBytes (flags ∷ chain ∷ bs)
      → length bs ≡ 32
      → c < 2 ^ 16
      → from_str coding (coding.url_safe_encode (flags ∷ chain ∷ bs ++ c / 256 ∷ c % 256 ∷ []))
        ≡ valid (record { chain_id = chain_of_byte chain; bytes = bs; flags = some flags })
  unfolding from_str
  flagged flags chain bs c (f, (b, hs)) n u =
      let end = c / 256 ∷ c % 256 ∷ [] in
      let all = flags ∷ chain ∷ bs ++ end in
      let are_bytes : IsBytes all =
        (f, (b, All-append _ bs end hs (omega (arith, u), (omega arith, tt)))) in
      let total : length (bs ++ end) ≡ 34 = omega (arith, n, length-append bs end) in
      let long : length (coding.url_safe_encode all) ≡ 48 = laws.url_safe_length all ∙ rw total in
      let enough : (length (bs ++ end) == 34) ≡ true = rw total in
      rw (
        from_str,
        split_colon-none (coding.url_safe_encode all) (laws.url_safe_characters all are_bytes),
        not_hex (coding.url_safe_encode all) long,
        laws.alphabets all are_bytes,
        laws.standard_round all are_bytes,
        enough,
        take-append_exact 32 bs end (sym n),
      )

  abbrev with_flags : ℤ → List ℕ → Option ℕ → AccountAddressData
  with_flags chain_id bytes flags = record { chain_id = chain_id; bytes = bytes; flags = flags }

  printed :
      (chain : ℤ) (bs : List ℕ) (flags : Option ℕ)
      → IsBytes bs
      → length bs ≡ 32
      → FitsFlags flags chain
      → from_str coding (to_string coding (with_flags chain bs flags))
        ≡ valid (with_flags chain bs flags)
  unfolding to_string to_flagged_string payload
  printed chain bs none h n i = raw chain bs h n i
  printed chain bs (some f) h n (g, one) =
      let c = coding.checksum (f ∷ byte_of_chain chain ∷ bs) in
      flagged f (byte_of_chain chain) bs c (g, (is_byte chain one, h)) n (laws.checksum_16 _)
      ∙ rw (chain_of_byte-byte_of_chain chain one)

  -- An address that is printed is parsed back as it was: with flags from its 48 characters of base64,
  -- without flags from its chain and its hex digits, and within a shard from the base64 of its bytes.
  -- The address has 32 bytes; with flags its chain is -1 or from 0 to 254, since the chain 255 is
  -- printed like -1. The crates hex, base64 and crc do as they document.
  pub from_str-to_string :
      (a : AccountAddressData)
      → IsAccount a
      → (from_str coding (to_string coding a) ≡ valid a)
        × (context_from_str coding (context_to_string coding (into_shard_context a))
            ≡ valid (into_shard_context a))
  unfolding context_from_str context_to_string into_shard_context
  from_str-to_string a h =
      let long : (length a.bytes == 32) ≡ true = rw h.count in
      (
        printed a.chain_id a.bytes a.flags h.are_bytes h.count h.fits,
        rw (
          context_from_str,
          context_to_string,
          into_shard_context,
          laws.standard_round a.bytes h.are_bytes,
          long,
        ),
      )

  -- The checksum of an address with flags is not looked at: whatever number of 16 bits stands in its
  -- place, the string is parsed to the address. The address and the crates are as above.
  pub from_str_any_checksum :
      (a : AccountAddressData) (f c : ℕ)
      → IsAccount (record a { flags = some f })
      → c < 2 ^ 16
      → from_str coding
          (coding.url_safe_encode (payload (record a { flags = some f }) ++ c / 256 ∷ c % 256 ∷ []))
        ≡ valid (record a { flags = some f })
  unfolding payload
  from_str_any_checksum a f c h u =
      let (g, one) = h.fits in
      flagged f (byte_of_chain a.chain_id) a.bytes c (g, (is_byte a.chain_id one, h.are_bytes))
        h.count u
      ∙ rw (chain_of_byte-byte_of_chain a.chain_id one)
