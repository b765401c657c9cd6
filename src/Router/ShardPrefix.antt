-- ===== src/Router/ShardPrefix.antt =====
-- ton-client-util/src/router/shard_prefix.rs: the prefix of the addresses of a shard.
use native.Mathlib.Nat.{zero-add}
use tonlibjson.Prelude.{
  ℕ, zero, suc, ◌+◌, ◌-◌, ◌*◌, ◌/◌, ◌%◌, ◌≤◌, ◌≡◌, refl, sym, ap, ◌∙◌, Bool, true, false, Option,
  none, some, List, [], ◌∷◌, ◌++◌, length, take, replicate, append-nil, ◌==◌, leb, if◌then◌else◌,
  arith, take-append_exact, length-append, length-replicate,
}

-- The low `w` bits of a number, most significant first, before `rest`.
unfoldable pub to_bits : ℕ → ℕ → List Bool → List Bool
to_bits zero n rest = rest
to_bits (suc w) n rest = to_bits w (n / 2) ((n % 2 == 1) ∷ rest)

-- `trailing_zeros` of a number of `w` bits.
unfoldable pub trailing_zeros : ℕ → ℕ → ℕ
trailing_zeros zero n = 0
trailing_zeros (suc w) n =
    let zeros = trailing_zeros w (n / 2) in if n % 2 == 1 then 0 else suc zeros

pub record ShardPrefix : Type 0 where
  pub inner : List Bool

-- `none` is the panic on the shard id 0, where `64 - idx - 1` is below zero.
unfoldable pub from_shard_id : ℕ → Option ShardPrefix
from_shard_id shard_id =
    let idx = trailing_zeros 64 shard_id in
    if leb (idx + 1) 64
    then some (record { inner = take (64 - idx - 1) (to_bits 64 shard_id []) })
    else none

abbrev pub address_bits : List ℕ → List Bool
address_bits [] = []
address_bits (b ∷ bs) = to_bits 8 b (address_bits bs)

abbrev same_bit : Bool → Bool → Bool
same_bit true b = b
same_bit false b = if b then false else true

abbrev pub starts_with : List Bool → List Bool → Bool
starts_with xs [] = true
starts_with [] (p ∷ ps) = false
starts_with (x ∷ xs) (p ∷ ps) = let rest = starts_with xs ps in if same_bit p x then rest else false

unfoldable pub matches : ShardPrefix → List ℕ → Bool
matches prefix address = starts_with (address_bits address) prefix.inner

-- The number whose bits follow those of `a`.
abbrev bit : Bool → ℕ
bit true = 1
bit false = 0

abbrev pub of_bits : ℕ → List Bool → ℕ
of_bits a [] = a
of_bits a (b ∷ bs) = of_bits (2 * a + bit b) bs

-- The shard id of a prefix: the prefix, a one, and zeros up to 64 bits.
abbrev pub shard_id_of : List Bool → ℕ
shard_id_of p = of_bits 0 (p ++ true ∷ replicate (63 - length p) false)

half_bit : (a : ℕ) (b : Bool) → (2 * a + bit b) / 2 ≡ a
half_bit a true = ground arith
half_bit a false = ground arith

odd_bit : (a : ℕ) (b : Bool) → ((2 * a + bit b) % 2 == 1) ≡ b
odd_bit a true = ground arith
odd_bit a false = ground arith

to_bits-of_bits :
    (w a : ℕ) (bs rest : List Bool)
    → to_bits (length bs + w) (of_bits a bs) rest ≡ to_bits w a (bs ++ rest)
unfolding to_bits
to_bits-of_bits w a [] rest = rw (zero-add w)
to_bits-of_bits w a (b ∷ bs) rest =
    let shift : suc (length bs) + w ≡ length bs + suc w = omega arith in
    rw (shift, to_bits-of_bits (suc w) (2 * a + bit b) bs rest, half_bit a b, odd_bit a b)

of_bits-append : (a : ℕ) (xs ys : List Bool) → of_bits a (xs ++ ys) ≡ of_bits (of_bits a xs) ys
of_bits-append a [] ys = refl
of_bits-append a (x ∷ xs) ys = of_bits-append (2 * a + bit x) xs ys

trailing_zeros-of_bits :
    (k w a : ℕ) → trailing_zeros (k + w) (of_bits a (replicate k false)) ≡ k + trailing_zeros w a
unfolding trailing_zeros
trailing_zeros-of_bits zero w a = rw (zero-add w) (omega arith)
trailing_zeros-of_bits (suc k) w a =
    let shift : suc k + w ≡ k + suc w = omega arith in
    let even : ((2 * a + 0) % 2 == 1) ≡ false = odd_bit a false in
    let half : (2 * a + 0) / 2 ≡ a = half_bit a false in
    rw (shift, trailing_zeros-of_bits k (suc w) (2 * a + 0), even, half) (omega arith)

trailing_zeros-odd : (w a : ℕ) → trailing_zeros (suc w) (2 * a + 1) ≡ 0
unfolding trailing_zeros
trailing_zeros-odd w a = rw (odd_bit a true)

to_bits_none : (bs : List Bool) → to_bits 0 0 (bs ++ []) ≡ bs
unfolding to_bits
to_bits_none bs = append-nil bs

-- The prefix of at most 63 bits comes back from its shard id.
pub from_shard_id-shard_id_of :
    (p : List Bool) → length p ≤ 63 → from_shard_id (shard_id_of p) ≡ some (record { inner = p })
unfolding from_shard_id
from_shard_id-shard_id_of p h =
    let k = 63 - length p in
    let zeros = replicate k false in
    let odd = 2 * of_bits 0 p + 1 in
    let id : shard_id_of p ≡ of_bits odd zeros = of_bits-append 0 p (true ∷ zeros) in
    let width : k + suc (length p) ≡ 64 = omega arith in
    let wide : trailing_zeros 64 (shard_id_of p)
        ≡ trailing_zeros (k + suc (length p)) (shard_id_of p) =
      ap (λ w. trailing_zeros w (shard_id_of p)) (sym width) in
    let idx : trailing_zeros 64 (shard_id_of p) ≡ k =
      rw
        (
          wide,
          id,
          trailing_zeros-of_bits k (suc (length p)) odd,
          trailing_zeros-odd (length p) (of_bits 0 p),
        )
        (omega arith) in
    let size : length (p ++ true ∷ zeros) + 0 ≡ 64 =
      omega (arith, length-append p (true ∷ zeros), length-replicate k false) in
    let bits : to_bits 64 (shard_id_of p) [] ≡ p ++ true ∷ zeros =
      ap (λ w. to_bits w (shard_id_of p) []) (sym size)
      ∙ to_bits-of_bits 0 0 (p ++ true ∷ zeros) []
      ∙ to_bits_none (p ++ true ∷ zeros) in
    let fits : leb (k + 1) 64 ≡ true = ground arith in
    let cut : 64 - k - 1 ≡ length p = omega arith in
    rw (idx, fits, bits, take-append_exact (64 - k - 1) p (true ∷ zeros) cut)
