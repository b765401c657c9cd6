-- ===== src/Cells/Toner.antt =====
-- The crate toner, as a parameter: the parser of a cell with what is left of its bits and references.
use tonlibjson.Prelude.{ℕ, ◌+◌, ◌*◌, ◌^◌, ◌<◌, ◌≡◌, Bool, List, length, All}
use tonlibjson.Prelude.Int.{ℤ, pos, negsuc}

-- A value and the parser after it; an error; or a panic.
pub data Unpacked (P A : Type 0) : Type 0 where
  unpacked : A → P → Unpacked P A
  refused : Unpacked P A
  panicked : Unpacked P A

-- The `?` of the program.
infixl 20 ◌>>=◌
abbrev pub ◌>>=◌ : {P A B : Type 0} → Unpacked P A → (A → P → Unpacked P B) → Unpacked P B
unpacked a p >>= f = f a p
refused >>= f = refused
panicked >>= f = panicked

-- `unpack w` is an unsigned number of `w` bits, as `NBits` and the integers read it; a `bool` is one
-- bit. `reference` is `Ref`, which parses the next cell that is referred to, and `reference_fully`
-- that with `ParseFully`. `parse_hashmap_e` is a `HashmapE` with keys of so many bits, of references to
-- trees, which are lists of their leaves; `load_be` is of the crate bitvec. `Currency` is its `CurrencyCollection`.
pub record Toner : Type 1 where
  pub P : Type 0
  pub Currency : Type 0
  pub unpack : ℕ → P → Unpacked P ℕ
  pub unpack_i32 : P → Unpacked P ℤ
  pub unpack_bytes : ℕ → P → Unpacked P (List ℕ)
  pub parse_currency : P → Unpacked P Currency
  pub skip_cell : P → Unpacked P (Unit {0})
  pub parse_hashmap_e :
      {A : Type 0} → ℕ → (P → Unpacked P A) → P → Unpacked P (List (List Bool × List A))
  pub load_be : List Bool → ℕ
  pub reference : {A : Type 0} → (P → Unpacked P A) → P → Unpacked P A
  pub reference_fully : {A : Type 0} → (P → Unpacked P A) → P → Unpacked P A

abbrev pub IsI32 : ℤ → Type 0
IsI32 (pos n) = n < 2 ^ 31
IsI32 (negsuc n) = n < 2 ^ 31

-- The documented behaviour, by what a cell holds: `bits w n p` has a number in `w` bits, the highest
-- first, before what `p` has; `link c p` has a reference to `c` first; `empty` has nothing.
pub record IsDocumented (toner : Toner) : Type 1 where
  pub empty : toner.P
  pub bits : ℕ → ℕ → toner.P → toner.P
  pub int32 : ℤ → toner.P → toner.P
  pub bytes : List ℕ → toner.P → toner.P
  pub currency : toner.Currency → toner.P → toner.P
  pub link : toner.P → toner.P → toner.P
  pub bits_join :
      (w v n m : ℕ) (p : toner.P)
      → n < 2 ^ w
      → m < 2 ^ v
      → bits w n (bits v m p) ≡ bits (w + v) (n * 2 ^ v + m) p
  pub unpack_bits : (w n : ℕ) (p : toner.P) → n < 2 ^ w → toner.unpack w (bits w n p) ≡ unpacked n p
  pub unpack_int32 : (z : ℤ) (p : toner.P) → IsI32 z → toner.unpack_i32 (int32 z p) ≡ unpacked z p
  pub unpack_written :
      (bs : List ℕ) (p : toner.P)
      → All (λ b. b < 256) bs
      → toner.unpack_bytes (length bs) (bytes bs p) ≡ unpacked bs p
  pub parse_written :
      (c : toner.Currency) (p : toner.P) → toner.parse_currency (currency c p) ≡ unpacked c p
  pub skip_link : (c p : toner.P) → toner.skip_cell (link c p) ≡ unpacked tt p
  pub reference_link :
      {A : Type 0} (q : toner.P → Unpacked toner.P A) (c p : toner.P) (a : A)
      → q c ≡ unpacked a empty
      → toner.reference q (link c p) ≡ unpacked a p
  pub reference_fully_link :
      {A : Type 0} (q : toner.P → Unpacked toner.P A) (c p : toner.P) (a : A)
      → q c ≡ unpacked a empty
      → toner.reference_fully q (link c p) ≡ unpacked a p
