-- ===== src/Cells/Flags.antt =====
-- ton-liteserver-client/src/tlb/block_info.rs: the bits before the sequence number, as one word of flags.
use tonlibjson.Prelude.{
  ℕ, ◌+◌, ◌*◌, ◌/◌, ◌%◌, ◌^◌, ◌<◌, ◌≤◌, ◌≡◌, refl, Bool, true, false, ◌==◌, arith,
}
use tonlibjson.Cells.Toner.{Toner, IsDocumented}
use tonlibjson.Cells.Blocks.{has_bit}
use tonlibjson.Cells.Layout.{number, flags_word, one_bit}

pub is_bit : (b : Bool) → number b ≤ 1
is_bit true = omega arith
is_bit false = omega arith

pub number_is : (b : Bool) → (number b == 1) ≡ b
number_is true = refl
number_is false = refl

-- The bits of the word.
module _ (a b c d e f g h i : Bool) where
  abbrev pub word : ℕ
  word = flags_word a b c d e f g h (number i)

  pub has_bit_15 : has_bit 15 word ≡ a
  unfolding has_bit
  has_bit_15 =
      let at_bit : word / 2 ^ 15 % 2 ≡ number a = omega (
        arith,
        is_bit a,
        is_bit b,
        is_bit c,
        is_bit d,
        is_bit e,
        is_bit f,
        is_bit g,
        is_bit h,
        is_bit i,
      ) in
      rw at_bit (number_is a)

  pub has_bit_14 : has_bit 14 word ≡ b
  unfolding has_bit
  has_bit_14 =
      let at_bit : word / 2 ^ 14 % 2 ≡ number b = omega (
        arith,
        is_bit a,
        is_bit b,
        is_bit c,
        is_bit d,
        is_bit e,
        is_bit f,
        is_bit g,
        is_bit h,
        is_bit i,
      ) in
      rw at_bit (number_is b)

  pub has_bit_8 : has_bit 8 word ≡ h
  unfolding has_bit
  has_bit_8 =
      let at_bit : word / 2 ^ 8 % 2 ≡ number h = omega (
        arith,
        is_bit a,
        is_bit b,
        is_bit c,
        is_bit d,
        is_bit e,
        is_bit f,
        is_bit g,
        is_bit h,
        is_bit i,
      ) in
      rw at_bit (number_is h)

  pub has_bit_0 : has_bit 0 word ≡ i
  unfolding has_bit
  has_bit_0 =
      let at_bit : word / 2 ^ 0 % 2 ≡ number i = omega (
        arith,
        is_bit a,
        is_bit b,
        is_bit c,
        is_bit d,
        is_bit e,
        is_bit f,
        is_bit g,
        is_bit h,
        is_bit i,
      ) in
      rw at_bit (number_is i)

  pub word_16 : word < 2 ^ 16
  word_16 = omega (
    arith,
    is_bit a,
    is_bit b,
    is_bit c,
    is_bit d,
    is_bit e,
    is_bit f,
    is_bit g,
    is_bit h,
    is_bit i,
  )

  pub joined_bits :
      {toner : Toner} (doc : IsDocumented toner) (p : toner.P)
      → one_bit doc a (
          one_bit doc b (
            one_bit doc c (
              one_bit doc d (
                one_bit doc e
                  (one_bit doc f (one_bit doc g (one_bit doc h (doc.bits 8 (number i) p))))))))
        ≡ doc.bits 16 word p
  joined_bits doc p =
      let w8 = number i in
      let w9 = number h * 2 ^ 8 + w8 in
      let w10 = number g * 2 ^ 9 + w9 in
      let w11 = number f * 2 ^ 10 + w10 in
      let w12 = number e * 2 ^ 11 + w11 in
      let w13 = number d * 2 ^ 12 + w12 in
      let w14 = number c * 2 ^ 13 + w13 in
      let w15 = number b * 2 ^ 14 + w14 in
      rw (
        doc.bits_join 1 8 (number h) w8 p (omega (arith, is_bit h)) (omega (arith, is_bit i)),
        doc.bits_join 1 9 (number g) w9 p (omega (arith, is_bit g))
            (omega (arith, is_bit i, is_bit h)),
        doc.bits_join 1 10 (number f) w10 p (omega (arith, is_bit f))
            (omega (arith, is_bit i, is_bit h, is_bit g)),
        doc.bits_join 1 11 (number e) w11 p (omega (arith, is_bit e))
            (omega (arith, is_bit i, is_bit h, is_bit g, is_bit f)),
        doc.bits_join 1 12 (number d) w12 p (omega (arith, is_bit d))
            (omega (arith, is_bit i, is_bit h, is_bit g, is_bit f, is_bit e)),
        doc.bits_join 1 13 (number c) w13 p (omega (arith, is_bit c))
            (omega (arith, is_bit i, is_bit h, is_bit g, is_bit f, is_bit e, is_bit d)),
        doc.bits_join 1 14 (number b) w14 p (omega (arith, is_bit b))
            (omega (arith, is_bit i, is_bit h, is_bit g, is_bit f, is_bit e, is_bit d, is_bit c)),
        doc.bits_join 1 15 (number a) w15 p (omega (arith, is_bit a)) (
            omega (
              arith,
              is_bit i,
              is_bit h,
              is_bit g,
              is_bit f,
              is_bit e,
              is_bit d,
              is_bit c,
              is_bit b,
            )),
      )
