-- ===== src/Tests/Boxes.antt =====
-- A concrete parser of cells, which does as the crate toner documents.
use tonlibjson.Prelude.{
  ℕ, zero, suc, ◌+◌, ◌-◌, ◌*◌, ◌/◌, ◌%◌, ◌^◌, ◌<◌, ◌≡◌, refl, sym, ap, ◌∙◌, Bool, true, false,
  Option, none, some, List, [], ◌∷◌, length, All, ◌==◌, ltb, lt→ltb, if◌then◌else◌, Bool-cases, inl,
  inr, arith,
}
use tonlibjson.Prelude.Int.{ℤ, pos, negsuc}
use native.Mathlib.Nat.{pow-suc}
use tonlibjson.Cells.Toner.{Toner, Unpacked, unpacked, refused, IsI32, IsDocumented, ◌>>=◌}

mutual
  pub data Box : Type 0 where
    box : List Bool → Boxes → Box

  pub data Boxes : Type 0 where
    no_box : Boxes
    more_boxes : Box → Boxes → Boxes

-- The bits of a number, the highest first, before others.
abbrev put : ℕ → ℕ → List Bool → List Bool
put zero n bs = bs
put (suc w) n bs = put w (n / 2) ((n % 2 == 1) ∷ bs)

abbrev digit : Bool → ℕ
digit true = 1
digit false = 0

abbrev get : ℕ → ℕ → List Bool → Option (ℕ × List Bool)
get zero acc bs = some (acc, bs)
get (suc w) acc [] = none
get (suc w) acc (b ∷ bs) = get w (2 * acc + digit b) bs

abbrev then_bit : Option (ℕ × List Bool) → Option (ℕ × List Bool)
then_bit none = none
then_bit (some (acc, bs)) = get 1 acc bs

get-suc : (w acc : ℕ) (bs : List Bool) → get (suc w) acc bs ≡ then_bit (get w acc bs)
get-suc zero acc bs = refl
get-suc (suc w) acc [] = refl
get-suc (suc w) acc (b ∷ bs) = get-suc w (2 * acc + digit b) bs

digit_last : (n : ℕ) → digit (n % 2 == 1) ≡ n % 2
digit_last n = elim (Bool-cases (n % 2 == 1)) [
  | inl e ↦ rw e (ground arith)
  | inr e ↦ rw e (ground arith)
]

get-put :
    (w n acc : ℕ) (bs : List Bool) → n < 2 ^ w → get w acc (put w n bs) ≡ some (acc * 2 ^ w + n, bs)
get-put zero n acc bs h =
    let same : acc ≡ acc * 2 ^ 0 + n = omega (arith, h) in ap (λ m. some (m, bs)) same
get-put (suc w) n acc bs h =
    let half : n / 2 < 2 ^ w = omega (arith, rw (pow-suc 2 w) at h) in
    let sum : 2 * (acc * 2 ^ w + n / 2) + n % 2 ≡ acc * 2 ^ suc w + n =
      rw (pow-suc 2 w) (omega arith) in
    rw (
      get-suc w acc (put w (n / 2) ((n % 2 == 1) ∷ bs)),
      get-put w (n / 2) acc ((n % 2 == 1) ∷ bs) half,
      digit_last n,
      sum,
    )

put_join :
    (w v n m : ℕ) (bs : List Bool)
    → m < 2 ^ v
    → put w n (put v m bs) ≡ put (w + v) (n * 2 ^ v + m) bs
put_join w zero n m bs h =
    let width : w + 0 ≡ w = omega arith in
    let same : n * 2 ^ 0 + m ≡ n = omega (arith, h) in rw (width, same)
put_join w (suc v) n m bs h =
    let half : m / 2 < 2 ^ v = omega (arith, rw (pow-suc 2 v) at h) in
    let width : w + suc v ≡ suc (w + v) = omega arith in
    let quotient : (n * 2 ^ suc v + m) / 2 ≡ n * 2 ^ v + m / 2 = rw (pow-suc 2 v) (omega arith) in
    let rest : (n * 2 ^ suc v + m) % 2 ≡ m % 2 = rw (pow-suc 2 v) (omega arith) in
    let all = n * 2 ^ suc v + m in
    put_join w v n (m / 2) ((m % 2 == 1) ∷ bs) half
    ∙ sym (
        ap (λ k. put k all bs) width
        ∙ ap (λ k. put (w + v) k ((all % 2 == 1) ∷ bs)) quotient
        ∙ ap (λ k. put (w + v) (n * 2 ^ v + m / 2) ((k == 1) ∷ bs)) rest)

abbrev with_bits : Boxes → Option (ℕ × List Bool) → Unpacked Box ℕ
with_bits rs none = refused
with_bits rs (some (n, bs)) = unpacked n (box bs rs)

abbrev read_bits : ℕ → Box → Unpacked Box ℕ
read_bits w (box bs rs) = with_bits rs (get w 0 bs)

abbrev write_bits : ℕ → ℕ → Box → Box
write_bits w n (box bs rs) = box (put w n bs) rs

read_written : (w n : ℕ) (p : Box) → n < 2 ^ w → read_bits w (write_bits w n p) ≡ unpacked n p
read_written w n (box bs rs) h =
    let same : 0 * 2 ^ w + n ≡ n = omega arith in rw (get-put w n 0 bs h, same)

abbrev signed : ℕ → ℤ
signed n = if ltb n (2 ^ 31) then pos n else negsuc (2 ^ 32 - 1 - n)

abbrev unsigned : ℤ → ℕ
unsigned (pos n) = n
unsigned (negsuc n) = 2 ^ 32 - 1 - n

abbrev read_i32 : Box → Unpacked Box ℤ
read_i32 p = read_bits 32 p >>= λ n q. unpacked (signed n) q

i32_written : (z : ℤ) (p : Box) → IsI32 z → read_i32 (write_bits 32 (unsigned z) p) ≡ unpacked z p
i32_written (pos n) p h = rw (read_written 32 n p (omega (arith, h)), lt→ltb n (2 ^ 31) h)
i32_written (negsuc n) p h =
    let high : ltb (2 ^ 32 - 1 - n) (2 ^ 31) ≡ false = ground arith in
    let back : 2 ^ 32 - 1 - (2 ^ 32 - 1 - n) ≡ n = omega (arith, h) in
    rw (read_written 32 (2 ^ 32 - 1 - n) p (omega arith), high, back)

abbrev read_bytes : ℕ → Box → Unpacked Box (List ℕ)
read_bytes zero p = unpacked [] p
read_bytes (suc n) p = read_bits 8 p >>= λ b q. read_bytes n q >>= λ bs r. unpacked (b ∷ bs) r

abbrev put_bytes : List ℕ → Box → Box
put_bytes [] p = p
put_bytes (b ∷ bs) p = write_bits 8 b (put_bytes bs p)

bytes_written :
    (bs : List ℕ) (p : Box)
    → All (λ b. b < 256) bs
    → read_bytes (length bs) (put_bytes bs p) ≡ unpacked bs p
bytes_written [] p h = refl
bytes_written (b ∷ bs) p (h, hs) = rw (read_written 8 b (put_bytes bs p) h, bytes_written bs p hs)

abbrev value : List Bool → ℕ
value [] = 0
value (b ∷ bs) = digit b * 2 ^ length bs + value bs

abbrev follow : {A : Type 0} → (Box → Unpacked Box A) → Box → Unpacked Box A
follow q (box bs no_box) = refused
follow q (box bs (more_boxes c rs)) = q c >>= λ a rest. unpacked a (box bs rs)

abbrev add_link : Box → Box → Box
add_link c (box bs rs) = box bs (more_boxes c rs)

abbrev pub small_toner : Toner
small_toner = record {
  P = Box;
  Currency = Unit;
  unpack = read_bits;
  unpack_i32 = read_i32;
  unpack_bytes = read_bytes;
  parse_currency = λ p. unpacked tt p;
  skip_cell = follow (λ c. unpacked tt c);
  parse_hashmap_e = λ w q p. refused;
  load_be = value;
  reference = λ q p. follow q p;
  reference_fully = λ q p. follow q p;
}

follow_link :
    {A : Type 0} (q : Box → Unpacked Box A) (c p : Box) (a : A)
    → q c ≡ unpacked a (box [] no_box)
    → follow q (add_link c p) ≡ unpacked a p
follow_link q c (box bs rs) a e = rw e

skip_link_lem : (c p : Box) → follow (λ d. unpacked tt d) (add_link c p) ≡ unpacked tt p
skip_link_lem c (box bs rs) = refl

join_bits :
    (w v n m : ℕ) (p : Box)
    → n < 2 ^ w
    → m < 2 ^ v
    → write_bits w n (write_bits v m p) ≡ write_bits (w + v) (n * 2 ^ v + m) p
join_bits w v n m (box bs rs) h k = ap (λ cs. box cs rs) (put_join w v n m bs k)

pub small_toner-IsDocumented : IsDocumented small_toner
small_toner-IsDocumented = record {
  empty = box [] no_box;
  bits = write_bits;
  int32 = λ z p. write_bits 32 (unsigned z) p;
  bytes = put_bytes;
  currency = λ c p. p;
  link = add_link;
  bits_join = join_bits;
  unpack_bits = read_written;
  unpack_int32 = i32_written;
  unpack_written = bytes_written;
  parse_written = λ c p. refl;
  skip_link = skip_link_lem;
  reference_link = λ q c p a e. follow_link q c p a e;
  reference_fully_link = λ q c p a e. follow_link q c p a e;
}
