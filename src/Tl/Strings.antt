-- ===== src/Tl/Strings.antt =====
-- `parse_bytes` of adnl-tcp/src/deserializer.rs on what `write_bytes` wrote.
use tonlibjson.Prelude.{
  ℕ, ◌+◌, ◌-◌, ◌%◌, ◌^◌, ◌≤◌, ◌<◌, ◌≡◌, ◌≢◌, ◌⊎◌, refl, sym, ap, inl, inr, List, [], ◌∷◌, ◌++◌,
  some, true, length, take, replicate, dec_lt, leb, ltb, arith, Bool-cases, append_assoc,
  append-nil, length-append, length-replicate, split_at-append,
}
use tonlibjson.Prelude.Words.{to_le_bytes, from_le_bytes}
use tonlibjson.Tl.Buf.{BufMut, Buf, front_word, advanced}
use tonlibjson.Tl.Serializer.{write_bytes}
use tonlibjson.Tl.Deserializer.{
  ok, ◌>>=◌, taken, skipped, ◌>>◌, parse_bytes, skip_padding, short_rest, long_rest,
}
use tonlibjson.Tl.Scalars.{empty, written, copy_to_slice_front}
use tonlibjson.Tl.Padding.{zeros, long_body, short_form_lem, long_form_lem}

module _ (c : Buf) where
  get_u8_front : (x : ℕ) (rest : List ℕ) → c.get_u8 (x ∷ rest) ≡ some (x, rest)
  get_u8_front x rest =
      rw (c.get_u8_lem (x ∷ rest), front_word) (ap (λ k. some (k, rest)) (omega arith))

  advance_front :
      (n : ℕ) (pad rest : List ℕ) → n ≡ length pad → c.advance n (pad ++ rest) ≡ some rest
  advance_front n pad rest e =
      rw (c.advance_lem n (pad ++ rest), split_at-append n pad rest e, advanced)

  skip_zeros : (p : ℕ) (rest : List ℕ) → p < 4 → skip_padding c p (zeros p ++ rest) ≡ ok tt rest
  unfolding skip_padding
  skip_zeros p rest h = elim (Bool-cases (ltb 0 p)) [
    | inl e ↦
        let pad : List ℕ = replicate (4 - p) 0 in
        let front =
          advance_front (4 - p) pad rest (omega (arith, length-replicate {A = ℕ} (4 - p) 0)) in
        rw (e, front, skipped)
    | inr e ↦ rw e
  ]

  short_rest_lem :
      (len : ℕ) (val rest : List ℕ)
      → len ≡ length val
      → short_rest c len ((val ++ zeros ((len + 1) % 4)) ++ rest) ≡ ok val rest
  unfolding short_rest
  short_rest_lem len val rest e =
      let p = (len + 1) % 4 in
      rw (
        append_assoc val (zeros p) rest,
        copy_to_slice_front c len val (zeros p ++ rest) e,
        taken,
        ◌>>=◌,
        ◌>>◌,
        skip_zeros p rest (omega arith),
        ◌>>=◌,
      )

  -- Behind the byte 254: three bytes of the length `len`, the value, and its padding.
  long_rest_lem :
      (len : ℕ) (low val rest : List ℕ)
      → length low ≡ 3
      → from_le_bytes low ≡ len
      → len ≡ length val
      → long_rest c (low ++ ((val ++ zeros (len % 4)) ++ rest)) ≡ ok val rest
  unfolding long_rest
  long_rest_lem len low val rest three reads e =
      let back = ((val ++ zeros (len % 4)) ++ rest) in
      rw (
        copy_to_slice_front c 3 low back (sym three),
        taken,
        ◌>>=◌,
        reads,
        append_assoc val (zeros (len % 4)) rest,
        copy_to_slice_front c len val (zeros (len % 4) ++ rest) e,
        ◌>>◌,
        ◌>>=◌,
        reads,
        skip_zeros (len % 4) rest (omega arith),
      )

  -- The byte that `write_bytes` puts first decides the form.
  short_form_read :
      (len : ℕ) (body : List ℕ) → len ≤ 253 → parse_bytes c (len ∷ body) ≡ short_rest c len body
  unfolding parse_bytes
  short_form_read len body h =
      let fits : leb len 253 ≡ true = ground arith in rw (get_u8_front len body, taken, ◌>>=◌, fits)

  long_form_read : (body : List ℕ) → parse_bytes c (254 ∷ body) ≡ long_rest c body
  unfolding parse_bytes
  long_form_read body = rw (get_u8_front 254 body, taken, ◌>>=◌)

header_reads : (n : ℕ) → n < 2 ^ 24 → from_le_bytes (take 3 (to_le_bytes 4 (n % 2 ^ 32))) ≡ n
header_reads n h = omega arith

length_low : (n : ℕ) → length (take 3 (to_le_bytes 4 n)) ≡ 3
length_low n = refl

padding_even : (n : ℕ) → (n + 4) % 4 ≡ n % 4
padding_even n = omega arith

long_body_ragged :
    (val : List ℕ) → length val % 4 ≢ 0 → long_body val ≡ val ++ zeros (length val % 4)
long_body_ragged val h =
    let pad : ltb 0 (length val % 4) ≡ true = ground arith in rw (padding_even (length val), pad)

long_body_even : (val : List ℕ) → length val % 4 ≡ 0 → long_body val ≡ (length val % 2 ^ 8) ∷ val
long_body_even val h = rw (padding_even (length val), h)

module _ (b : BufMut) (c : Buf) (val rest : List ℕ) where
  parse_short :
      length val ≤ 253
      → parse_bytes c (written (λ v se. write_bytes b se v) val ++ rest) ≡ ok val rest
  parse_short h =
      let small : length val % 2 ^ 8 ≡ length val = omega arith in
      rw (short_form_lem b empty val h, small, short_form_read c (length val) _ h)
        (short_rest_lem c (length val) val rest refl)

  parse_long :
      253 < length val
      → length val < 2 ^ 24
      → length val % 4 ≢ 0
      → parse_bytes c (written (λ v se. write_bytes b se v) val ++ rest) ≡ ok val rest
  parse_long long bound ragged =
      let low = take 3 (to_le_bytes 4 (length val % 2 ^ 32)) in
      rw
        (
          long_form_lem b empty val long,
          long_body_ragged val ragged,
          append_assoc (254 ∷ low) (val ++ zeros (length val % 4)) rest,
          long_form_read c (low ++ ((val ++ zeros (length val % 4)) ++ rest)),
        )
        (long_rest_lem c (length val) low val rest refl (header_reads (length val) bound) refl)

  -- `parse_bytes` reads back what `write_bytes` wrote, and leaves what follows, for a value of fewer
  -- than 2 ^ 24 bytes that has the short form, or a length that is no multiple of 4.
  pub parse_bytes-write_bytes :
      length val < 2 ^ 24
      → (length val ≤ 253) ⊎ (length val % 4 ≢ 0)
      → parse_bytes c (written (λ v se. write_bytes b se v) val ++ rest) ≡ ok val rest
  parse_bytes-write_bytes bound (inl short) = parse_short short
  parse_bytes-write_bytes bound (inr ragged) = elim (dec_lt 253 (length val)) [
    | yes long ↦ parse_long long bound ragged
    | no short ↦ parse_short (omega arith)
  ]

shift_stray :
    (p stray last : ℕ) (front rest : List ℕ)
    → p ≡ 0
    → (stray ∷ (front ++ (last ∷ []))) ++ rest ≡ ((stray ∷ front) ++ zeros p) ++ (last ∷ rest)
shift_stray p stray last front rest e = rw e (simp (append_assoc, append-nil))

-- A value of more than 253 and fewer than 2 ^ 24 bytes, a multiple of 4, comes back shifted by the
-- stray byte before it: its last byte is left in the input, before what follows.
pub parse_bytes_shifted :
    (b : BufMut) (c : Buf) (front : List ℕ) (last : ℕ) (rest : List ℕ)
    → 253 < length (front ++ (last ∷ []))
    → length (front ++ (last ∷ [])) < 2 ^ 24
    → length (front ++ (last ∷ [])) % 4 ≡ 0
    → parse_bytes c (written (λ v se. write_bytes b se v) (front ++ (last ∷ [])) ++ rest)
      ≡ ok ((length (front ++ (last ∷ [])) % 2 ^ 8) ∷ front) (last ∷ rest)
parse_bytes_shifted b c front last rest long bound even =
    let val = front ++ (last ∷ []) in
    let low = take 3 (to_le_bytes 4 (length val % 2 ^ 32)) in
    let stray = length val % 2 ^ 8 in
    rw
      (
        long_form_lem b empty val long,
        long_body_even val even,
        append_assoc (254 ∷ low) (stray ∷ val) rest,
        long_form_read c (low ++ ((stray ∷ val) ++ rest)),
        shift_stray (length val % 4) stray last front rest even,
      )
      (long_rest_lem c (length val) low (stray ∷ front) (last ∷ rest) refl
        (header_reads (length val) bound) (omega (arith, length-append front (last ∷ []))))
