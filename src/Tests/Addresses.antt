-- ===== src/Tests/Addresses.antt =====
-- Addresses are printed and parsed back, with a coding that shifts every byte.
use tonlibjson.Prelude.{
  ℕ, zero, suc, ◌+◌, ◌-◌, ◌*◌, ◌/◌, ◌%◌, ◌≡◌, ◌<◌, refl, true, false, Option, none, some, List, [],
  ◌∷◌, ◌++◌, map, length, length-append, length-replicate, replicate, leb, ◌==◌, ==_iff, ap,
  if◌then◌else◌, Bool-cases, inl, inr, arith,
}
use tonlibjson.Prelude.Int.{ℤ, pos, negsuc}
use tonlibjson.Address.Account.{
  Coding, AccountAddressData, valid, to_standard, from_str, to_string, payload, context_from_str,
  context_to_string, into_shard_context,
}
use tonlibjson.Address.Printed.{
  IsBytes, HasNoColon, IsI32, IsDocumented, IsAccount, from_str-to_string, from_str_any_checksum,
}

abbrev shift : List ℕ → List ℕ
shift bs = map (λ b. b + 100) bs

abbrev keep : List ℕ → List ℕ
keep [] = []
keep (x ∷ xs) = let rest = keep xs in if leb 100 x then (x - 100) ∷ rest else rest

abbrev padded : ℕ → List ℕ → List ℕ
padded n bs = shift bs ++ replicate (n - length bs) 0

keep-padded : (bs : List ℕ) (k : ℕ) → keep (shift bs ++ replicate k 0) ≡ bs
keep-padded [] zero = refl
keep-padded [] (suc k) = keep-padded [] k
keep-padded (b ∷ bs) k =
    let big : leb 100 (b + 100) ≡ true = ground arith in
    let back : b + 100 - 100 ≡ b = omega arith in rw (big, back, keep-padded bs k)

length-shift : (bs : List ℕ) → length (shift bs) ≡ length bs
length-shift [] = refl
length-shift (b ∷ bs) = rw (length-shift bs)

length-padded : (n : ℕ) (bs : List ℕ) → length bs < suc n → length (padded n bs) ≡ n
length-padded n bs h = omega (
  arith,
  h,
  length-append (shift bs) (replicate (n - length bs) 0),
  length-shift bs,
  length-replicate {A = ℕ} (n - length bs) 0,
)

no_colon : (bs : List ℕ) (k : ℕ) → HasNoColon (shift bs ++ replicate k 0)
no_colon [] zero = tt
no_colon [] (suc k) = (refl, no_colon [] k)
no_colon (b ∷ bs) k = (ground arith, no_colon bs k)

standard :
    (bs : List ℕ) (k : ℕ) → map to_standard (shift bs ++ replicate k 0) ≡ shift bs ++ replicate k 0
standard [] zero = refl
standard [] (suc k) = rw (standard [] k)
standard (b ∷ bs) k =
    let minus : ((b + 100) == 45) ≡ false = ground arith in
    let underscore : ((b + 100) == 95) ≡ false = ground arith in
    rw (minus, underscore, standard bs k)

abbrev base64 : List ℕ → List ℕ
base64 bs = padded (4 * ((length bs + 2) / 3)) bs

abbrev print : ℤ → List ℕ
print (pos n) = 100 ∷ (n + 100) ∷ []
print (negsuc n) = 101 ∷ (n + 100) ∷ []

abbrev number : List ℕ → Option ℤ
number [] = none
number (s ∷ []) = none
number (s ∷ n ∷ more) = some (if s == 100 then pos (n - 100) else negsuc (n - 100))

number-print : (z : ℤ) → IsI32 z → number (print z) ≡ some z
number-print (pos n) h = let back : n + 100 - 100 ≡ n = omega arith in rw back
number-print (negsuc n) h = let back : n + 100 - 100 ≡ n = omega arith in rw back

print_no_colon : (z : ℤ) → HasNoColon (print z)
print_no_colon (pos n) = (refl, (ground arith, tt))
print_no_colon (negsuc n) = (refl, (ground arith, tt))

abbrev hex : List ℕ → Option (List ℕ)
hex s = if length s == 64 then some (keep s) else none

hex_64 : (s bs : List ℕ) → hex s ≡ some bs → length s ≡ 64
hex_64 s bs h = elim (Bool-cases (length s == 64)) [
  | inl e ↦ (==_iff (length s) 64).0 e
  | inr e ↦ let bad : none ≡ some bs = rw e at h in cc
]

hex-padded : (bs : List ℕ) → IsBytes bs → length bs ≡ 32 → hex (padded 64 bs) ≡ some bs
hex-padded bs h e =
    let whole : (length (padded 64 bs) == 64) ≡ true =
      rw (length-padded 64 bs (omega (arith, e))) in
    rw (whole, keep-padded bs (64 - length bs))

abbrev shifting : Coding
shifting = record {
  hex_decode_to_32 = hex;
  hex_encode = padded 64;
  standard_decode = λ s. some (keep s);
  standard_encode = base64;
  url_safe_encode = base64;
  checksum = λ bs. length bs % 65536;
  parse_i32 = number;
  print_i32 = print;
}

shifting-IsDocumented : IsDocumented shifting
shifting-IsDocumented = record {
  hex_round = hex-padded;
  hex_length = hex_64;
  alphabets = λ bs h. standard bs (4 * ((length bs + 2) / 3) - length bs);
  standard_round =
      λ bs h. ap (λ x. some x) (keep-padded bs (4 * ((length bs + 2) / 3) - length bs));
  url_safe_length = λ bs. length-padded (4 * ((length bs + 2) / 3)) bs (omega arith);
  url_safe_characters = λ bs h. no_colon bs (4 * ((length bs + 2) / 3) - length bs);
  i32_round = number-print;
  i32_characters = print_no_colon;
  checksum_16 = λ bs. omega arith;
}

elevens : (n : ℕ) → IsBytes (replicate n 11)
elevens zero = tt
elevens (suc n) = (omega arith, elevens n)

abbrev masterchain_account : AccountAddressData
masterchain_account = record { chain_id = negsuc 0; bytes = replicate 32 11; flags = some 81 }

masterchain_account-IsAccount : IsAccount masterchain_account
masterchain_account-IsAccount = record {
  are_bytes = elevens 32;
  count = refl;
  fits = (omega arith, refl);
}

from_str-to_string_example :
    (from_str shifting (to_string shifting masterchain_account) ≡ valid masterchain_account)
    × (context_from_str shifting
          (context_to_string shifting (into_shard_context masterchain_account))
        ≡ valid (into_shard_context masterchain_account))
from_str-to_string_example =
    from_str-to_string shifting shifting-IsDocumented masterchain_account
      masterchain_account-IsAccount

from_str_any_checksum_example :
    from_str shifting (base64 (payload masterchain_account ++ 2 ∷ 1 ∷ []))
    ≡ valid masterchain_account
from_str_any_checksum_example =
    from_str_any_checksum shifting shifting-IsDocumented masterchain_account 81 513
      masterchain_account-IsAccount (omega arith)
