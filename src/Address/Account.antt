-- ===== src/Address/Account.antt =====
-- tonlibjson-client/src/address.rs: AccountAddressData, ShardContextAccountAddress and
-- InternalAccountAddress. A string is the list of its bytes.
use tonlibjson.Prelude.{
  ℕ, ◌-◌, ◌/◌, ◌%◌, Option, none, some, List, [], ◌∷◌, ◌++◌, map, take, length, ◌==◌, if◌then◌else◌,
}
use tonlibjson.Prelude.Int.{ℤ, pos, negsuc, eqb_ℤ}

-- The crates hex, base64 and crc, and the parser and printer of `i32`.
pub record Coding : Type 0 where
  pub hex_decode_to_32 : List ℕ → Option (List ℕ)
  pub hex_encode : List ℕ → List ℕ
  pub standard_decode : List ℕ → Option (List ℕ)
  pub standard_encode : List ℕ → List ℕ
  pub url_safe_encode : List ℕ → List ℕ
  pub checksum : List ℕ → ℕ
  pub parse_i32 : List ℕ → Option ℤ
  pub print_i32 : ℤ → List ℕ

pub record AccountAddressData : Type 0 where
  pub chain_id : ℤ
  pub bytes : List ℕ
  pub flags : Option ℕ

pub record ShardContextAccountAddress : Type 0 where
  pub bytes : List ℕ

pub record InternalAccountAddress : Type 0 where
  pub chain_id : ℤ
  pub bytes : List ℕ

-- The errors of both parsers.
pub data AddressError : Type 0 where
  bad_workchain : AddressError
  bad_hex : AddressError
  invalid_address : AddressError
  invalid_base64 : AddressError
  invalid_length : ℕ → AddressError

pub data Parsed (A : Type 0) : Type 0 where
  valid : A → Parsed A
  invalid : AddressError → Parsed A

-- `split_once(':')`.
abbrev pub before_first : ℕ → List ℕ × List ℕ → List ℕ × List ℕ
before_first b (xs, ys) = (b ∷ xs, ys)

abbrev pub in_rest : ℕ → Option (List ℕ × List ℕ) → Option (List ℕ × List ℕ)
in_rest b none = none
in_rest b (some parts) = some (before_first b parts)

unfoldable pub split_colon : List ℕ → Option (List ℕ × List ℕ)
split_colon [] = none
split_colon (b ∷ bs) =
    let rest = split_colon bs in if b == 58 then some ([], bs) else in_rest b rest

-- '-' for '+', and '_' for '/'.
abbrev pub to_standard : ℕ → ℕ
to_standard b = if b == 45 then 43 else (if b == 95 then 47 else b)

abbrev pub chain_of_byte : ℕ → ℤ
chain_of_byte b = if b == 255 then negsuc 0 else pos b

-- A cast to `u8`.
abbrev pub as_byte : ℤ → ℕ
as_byte (pos n) = n % 256
as_byte (negsuc n) = 255 - n % 256

abbrev pub byte_of_chain : ℤ → ℕ
byte_of_chain chain_id = if eqb_ℤ chain_id (negsuc 0) then 255 else as_byte chain_id

abbrev pub bouncable : ℕ
bouncable = 17

abbrev pub non_bouncable : ℕ
non_bouncable = 81

abbrev pub unwrap_or : ℕ → Option ℕ → ℕ
unwrap_or d none = d
unwrap_or d (some n) = n

-- The bytes that are written before the checksum.
unfoldable pub payload : AccountAddressData → List ℕ
payload a = unwrap_or bouncable a.flags ∷ byte_of_chain a.chain_id ∷ a.bytes

module _ (coding : Coding) where
  abbrev raw_bytes : ℤ → Option (List ℕ) → Parsed AccountAddressData
  raw_bytes chain_id none = invalid bad_hex
  raw_bytes chain_id (some bytes) =
      valid (record { chain_id = chain_id; bytes = bytes; flags = none })

  abbrev raw_chain : List ℕ → Option ℤ → Parsed AccountAddressData
  raw_chain hex_bytes none = invalid bad_workchain
  raw_chain hex_bytes (some chain_id) = raw_bytes chain_id (coding.hex_decode_to_32 hex_bytes)

  abbrev pub flagged_bytes : Option (List ℕ) → Parsed AccountAddressData
  flagged_bytes none = invalid invalid_address
  flagged_bytes (some []) = invalid invalid_base64
  flagged_bytes (some (flags ∷ [])) = invalid invalid_base64
  flagged_bytes (some (flags ∷ workchain_id ∷ bytes)) =
      if length bytes == 34
      then valid (record {
        chain_id = chain_of_byte workchain_id;
        bytes = take 32 bytes;
        flags = some flags;
      })
      else invalid (invalid_length (length bytes))

  abbrev without_colon : List ℕ → Option (List ℕ) → Parsed AccountAddressData
  without_colon s (some bytes) = valid (record { chain_id = negsuc 0; bytes = bytes; flags = none })
  without_colon s none = flagged_bytes (coding.standard_decode (map to_standard s))

  abbrev at_colon : List ℕ → Option (List ℕ × List ℕ) → Parsed AccountAddressData
  at_colon s (some (workchain_id, hex_bytes)) = raw_chain hex_bytes (coding.parse_i32 workchain_id)
  at_colon s none = without_colon s (coding.hex_decode_to_32 s)

  unfoldable pub from_str : List ℕ → Parsed AccountAddressData
  from_str s = at_colon s (split_colon s)

  unfoldable pub to_raw_string : AccountAddressData → List ℕ
  to_raw_string a = coding.print_i32 a.chain_id ++ 58 ∷ coding.hex_encode a.bytes

  -- `put_u16` writes the higher byte first.
  unfoldable pub to_flagged_string : AccountAddressData → List ℕ
  to_flagged_string a =
      let crc16 = coding.checksum (payload a) in
      coding.url_safe_encode (payload a ++ crc16 / 256 ∷ crc16 % 256 ∷ [])

  abbrev pub string_by : AccountAddressData → Option ℕ → List ℕ
  string_by a none = to_raw_string a
  string_by a (some flags) = to_flagged_string a

  unfoldable pub to_string : AccountAddressData → List ℕ
  to_string a = string_by a a.flags

  abbrev context_bytes : Option (List ℕ) → Parsed ShardContextAccountAddress
  context_bytes none = invalid invalid_address
  context_bytes (some bytes) =
      if length bytes == 32
      then valid (record { bytes = bytes })
      else invalid (invalid_length (length bytes))

  unfoldable pub context_from_str : List ℕ → Parsed ShardContextAccountAddress
  context_from_str s = context_bytes (coding.standard_decode s)

  unfoldable pub context_to_string : ShardContextAccountAddress → List ℕ
  context_to_string a = coding.standard_encode a.bytes

unfoldable pub with_chain_id : ℤ → AccountAddressData → AccountAddressData
with_chain_id chain_id a = record a { chain_id = chain_id }

unfoldable pub bounceable : AccountAddressData → AccountAddressData
bounceable a = record { chain_id = a.chain_id; bytes = a.bytes; flags = some bouncable }

unfoldable pub non_bounceable : AccountAddressData → AccountAddressData
non_bounceable a = record { chain_id = a.chain_id; bytes = a.bytes; flags = some non_bouncable }

unfoldable pub into_shard_context : AccountAddressData → ShardContextAccountAddress
into_shard_context a = record { bytes = a.bytes }

unfoldable pub into_internal : ShardContextAccountAddress → ℤ → InternalAccountAddress
into_internal a chain_id = record { chain_id = chain_id; bytes = a.bytes }
