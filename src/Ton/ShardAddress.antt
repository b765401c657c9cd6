-- ===== src/Ton/ShardAddress.antt =====
-- tonlibjson-client/src/block.rs and ton-client-util/src/router/shard_prefix.rs: the address by which a
-- lookup by logical time is routed.
use tonlibjson.Prelude.{
  ℕ, zero, suc, ◌+◌, ◌-◌, ◌*◌, ◌/◌, ◌%◌, ◌^◌, ◌≡◌, refl, sym, ap, ◌∙◌, Bool, true, false, Option,
  none, some, List, [], ◌∷◌, ◌++◌, take, replicate, leb, ◌==◌, All, if◌then◌else◌, Bool-cases, inl,
  inr, arith,
}
use tonlibjson.Prelude.Int.{ℤ, pos, negsuc, ◌<ℤ◌}
use tonlibjson.Router.ShardPrefix.{
  ShardPrefix, to_bits, trailing_zeros, from_shard_id, address_bits, starts_with, matches,
}
use tonlibjson.Router.Route.{BlockCriteria, block, logical_time}
use tonlibjson.Blocks.Bounds.{ShardBounds}
use tonlibjson.Blocks.Registry.{
  Registry, ShardId, bounds_of, shards_of, or_default, as_u64, bounds_lt, shard_holds, or_rest,
  any_shard, contains,
}
use tonlibjson.Blocks.Cursor.{TonBlockId}
use tonlibjson.Ton.Requests.{
  lookup_logical_time, route_lookup_block, to_be_bytes, as_bits_64, shard_address,
}

some_eq : {A : Type 0} {a b : A} → some a ≡ some b → a ≡ b
some_eq e = cc

to_bits-append : (w n : ℕ) (xs ys : List Bool) → to_bits w n (xs ++ ys) ≡ to_bits w n xs ++ ys
unfolding to_bits
to_bits-append zero n xs ys = refl
to_bits-append (suc w) n xs ys = to_bits-append w (n / 2) ((n % 2 == 1) ∷ xs) ys

starts_with-take : (k : ℕ) (xs ys : List Bool) → starts_with (xs ++ ys) (take k xs) ≡ true
starts_with-take zero xs ys = refl
starts_with-take (suc k) [] ys = refl
starts_with-take (suc k) (true ∷ xs) ys = starts_with-take k xs ys
starts_with-take (suc k) (false ∷ xs) ys = starts_with-take k xs ys

-- `k` zeros after the bits of a number, and what is left without its last `k` bits.
abbrev shifted : ℕ → ℕ → ℕ
shifted zero b = b
shifted (suc k) b = 2 * shifted k b

abbrev halves : ℕ → ℕ → ℕ
halves zero n = n
halves (suc k) n = halves k (n / 2)

half_even : (c a : ℕ) → (2 * c + a) / 2 ≡ c + a / 2
half_even c a = omega arith

bit_even : (c a : ℕ) → (2 * c + a) % 2 ≡ a % 2
bit_even c a = omega arith

low_bits : (k b a : ℕ) (r : List Bool) → to_bits k (shifted k b + a) r ≡ to_bits k a r
unfolding to_bits
low_bits zero b a r = refl
low_bits (suc k) b a r =
    rw (half_even (shifted k b) a, bit_even (shifted k b) a)
      (low_bits k b (a / 2) ((a % 2 == 1) ∷ r))

byte : (n : ℕ) (r : List Bool) → to_bits 8 (n % 256) r ≡ to_bits 8 n r
byte n r =
    let whole : shifted 8 (n / 256) + n % 256 ≡ n = omega arith in
    sym (low_bits 8 (n / 256) (n % 256) r) ∙ ap (λ m. to_bits 8 m r) whole

abbrev more_bits : ℕ → ℕ → ℕ
more_bits zero w = w
more_bits (suc k) w = suc (more_bits k w)

high_bits :
    (k w n : ℕ) (r : List Bool)
    → to_bits (more_bits k w) n r ≡ to_bits w (halves k n) (to_bits k n r)
unfolding to_bits
high_bits zero w n r = refl
high_bits (suc k) w n r = high_bits k w (n / 2) ((n % 2 == 1) ∷ r)

abbrev width : ℕ → ℕ
width zero = 0
width (suc w) = more_bits 8 (width w)

address_bits-to_be_bytes :
    (w n : ℕ) (rest : List ℕ)
    → address_bits (to_be_bytes w n rest) ≡ to_bits (width w) n (address_bits rest)
unfolding to_be_bytes to_bits
address_bits-to_be_bytes zero n rest = refl
address_bits-to_be_bytes (suc w) n rest =
    let eighth : halves 8 n ≡ n / 256 = omega arith in
    address_bits-to_be_bytes w (n / 256) (n % 256 ∷ rest)
    ∙ ap (to_bits (width w) (n / 256)) (byte n (address_bits rest))
    ∙ sym (
        high_bits 8 (width w) n (address_bits rest)
        ∙ ap (λ m. to_bits (width w) m (to_bits 8 n (address_bits rest))) eighth)

to_be_bytes-append :
    (w n : ℕ) (xs rest : List ℕ) → to_be_bytes w n xs ++ rest ≡ to_be_bytes w n (xs ++ rest)
unfolding to_be_bytes
to_be_bytes-append zero n xs rest = refl
to_be_bytes-append (suc w) n xs rest = to_be_bytes-append w (n / 256) (n % 256 ∷ xs) rest

shard_bits :
    (n : ℕ) (rest : List ℕ)
    → address_bits (to_be_bytes 8 n [] ++ rest) ≡ to_bits 64 n [] ++ address_bits rest
shard_bits n rest =
    ap address_bits (to_be_bytes-append 8 n [] rest)
    ∙ address_bits-to_be_bytes 8 n rest
    ∙ to_bits-append 64 n [] (address_bits rest)

cut_bits :
    (n : ℕ) (p : ShardPrefix)
    → from_shard_id n ≡ some p
    → (k : ℕ) × (p.inner ≡ take k (to_bits 64 n []))
unfolding from_shard_id
cut_bits n p e =
    let k = 64 - trailing_zeros 64 n - 1 in
    elim (Bool-cases (leb (trailing_zeros 64 n + 1) 64)) [
      | inl fits ↦ (k, ap (λ q. q.inner) (sym (some_eq (rw fits at e))))
      | inr wide ↦ let bad : none ≡ some p = rw wide at e in absurd cc
    ]

in_shard :
    (shard : ℤ) (p : ShardPrefix)
    → from_shard_id (as_bits_64 shard) ≡ some p
    → matches p (shard_address shard) ≡ true
unfolding matches shard_address
in_shard shard p e =
    let n = as_bits_64 shard in
    let (k, cut) = cut_bits n p e in
    rw (matches, cut, shard_address, shard_bits n (replicate 24 0))
      (starts_with-take k (to_bits 64 n []) (address_bits (replicate 24 0)))

-- Every shard that is listed has a prefix: its id is not 0.
abbrev pub HavePrefixes : List ShardId → Type 0
HavePrefixes ids = All (λ id. (p : ShardPrefix) × (from_shard_id (as_u64 id.1) ≡ some p)) ids

-- The bounds of a shard that hold the time, whatever else is listed.
holds_or_rest :
    (p : ShardPrefix) (address : List ℕ) (o : Option ShardBounds) (lt : ℤ) (na : Bool)
    → or_rest (shard_holds (some p) address o lt na) (some true) ≡ some true
holds_or_rest p address o lt na =
    elim (Bool-cases (if matches p address then bounds_lt o lt na else false)) [
      | inl here ↦ rw here
      | inr other ↦ rw other
    ]

any_shard_holds :
    (before after : List ShardId) (id : ShardId) (p : ShardPrefix) (address : List ℕ) (lt : ℤ)
    (na : Bool) (reg : Registry)
    → HavePrefixes before
    → from_shard_id (as_u64 id.1) ≡ some p
    → matches p address ≡ true
    → bounds_lt (bounds_of id reg) lt na ≡ true
    → any_shard (before ++ id ∷ after) address lt na reg ≡ some true
unfolding any_shard
any_shard_holds [] after id p address lt na reg h e m b = rw (e, m, b)
any_shard_holds (i ∷ before) after id p address lt na reg ((q, f), h) e m b =
    rw (any_shard, f, any_shard_holds before after id p address lt na reg h e m b)
      (holds_or_rest q address (bounds_of i reg) lt na)

-- The shard id as both parts of the source read it.
same_bits :
    (shard : ℤ) → shard <ℤ pos (2 ^ 63) → negsuc (2 ^ 63) <ℤ shard → as_bits_64 shard ≡ as_u64 shard
unfolding as_bits_64
same_bits (pos n) h k = omega arith
same_bits (negsuc n) h k = omega arith

-- A lookup by logical time goes to the servers that know the shard at that time: it is routed by an
-- address and the time, and a server whose bounds of the shard hold the time has a block for that
-- address and time. The shard is an `i64`, and every shard that the server lists before it has an id
-- with a prefix, as it has itself.
pub contains-route_lookup_block :
    (id : TonBlockId) (lt : ℤ) (reg : Registry) (before after : List ShardId) (p : ShardPrefix)
    → id.shard <ℤ pos (2 ^ 63)
    → negsuc (2 ^ 63) <ℤ id.shard
    → or_default (shards_of id.workchain reg) ≡ before ++ (id.workchain, id.shard) ∷ after
    → HavePrefixes before
    → from_shard_id (as_u64 id.shard) ≡ some p
    → bounds_lt (bounds_of (id.workchain, id.shard) reg) lt false ≡ true
    → (criteria : BlockCriteria) × (route_lookup_block (lookup_logical_time id lt)
        ≡ block id.workchain criteria)
      × (contains id.workchain criteria false reg ≡ some true)
unfolding route_lookup_block lookup_logical_time contains
contains-route_lookup_block id lt reg before after p h k listed prefixes e b = (
  logical_time (shard_address id.shard) lt,
  refl,
  rw listed (
      any_shard_holds before after (id.workchain, id.shard) p (shard_address id.shard) lt false reg
        prefixes e (in_shard id.shard p (ap from_shard_id (same_bits id.shard h k) ∙ e)) b),
)
