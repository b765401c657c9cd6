-- ===== src/Tl/Padding.antt =====
-- What `write_bytes` of adnl-tcp/src/serializer.rs appends, and its alignment.
use tonlibjson.Prelude.{
  ℕ, ◌+◌, ◌-◌, ◌%◌, ◌^◌, ◌≤◌, ◌<◌, ◌≡◌, ◌≢◌, ◌⊎◌, inl, inr, List, [], ◌∷◌, ◌++◌, length, take,
  replicate, dec_lt, leb, ltb, if◌then◌else◌, arith, Bool-cases, true, false, ◌↔◌, append_assoc,
  append-nil, length-append, length-replicate,
}
use tonlibjson.Prelude.Words.{to_le_bytes}
use tonlibjson.Tl.Buf.{BufMut}
use tonlibjson.Tl.Serializer.{Serializer, write_bytes}

-- The zero bytes behind a value whose length, with its header, is `padding` mod 4.
abbrev pub zeros : ℕ → List ℕ
zeros padding = if ltb 0 padding then replicate (4 - padding) 0 else []

abbrev pub short_frame : List ℕ → List ℕ
short_frame val = (length val % 2 ^ 8) ∷ (val ++ zeros ((length val + 1) % 4))

abbrev pub long_header : List ℕ → List ℕ
long_header val = 254 ∷ take 3 (to_le_bytes 4 (length val % 2 ^ 32))

-- A byte stands before the value if its length is a multiple of 4.
abbrev pub long_body : List ℕ → List ℕ
long_body val =
    if ltb 0 ((length val + 4) % 4)
    then val ++ replicate (4 - (length val + 4) % 4) 0
    else ((length val % 2 ^ 8) ∷ val)

module _ (b : BufMut) where
  pub short_form_lem :
      (se : Serializer) (val : List ℕ)
      → length val ≤ 253
      → (write_bytes b se val).output ≡ se.output ++ short_frame val
  unfolding write_bytes
  short_form_lem se val h =
      let fits : leb (length val) 253 ≡ true = ground arith in
      elim (Bool-cases (ltb 0 ((length val + 1) % 4))) [
        | inl p ↦ simp (fits, p, b.put_u8_lem, b.put_slice_lem, b.put_bytes_lem, append_assoc)
        | inr p ↦ simp (fits, p, b.put_u8_lem, b.put_slice_lem, append_assoc, append-nil)
      ]

  pub long_form_lem :
      (se : Serializer) (val : List ℕ)
      → 253 < length val
      → (write_bytes b se val).output ≡ se.output ++ (long_header val ++ long_body val)
  unfolding write_bytes
  long_form_lem se val h =
      let fits : leb (length val) 253 ≡ false = ground arith in
      elim (Bool-cases (ltb 0 ((length val + 4) % 4))) [
        | inl p ↦ simp (fits, p, b.put_u8_lem, b.put_slice_lem, b.put_bytes_lem, append_assoc)
        | inr p ↦ simp (fits, p, b.put_u8_lem, b.put_slice_lem, append_assoc)
      ]

length-zeros : (p : ℕ) → p < 4 → (p + length (zeros p)) % 4 ≡ 0
length-zeros p h = ground (arith, length-replicate {A = ℕ} (4 - p) 0)

length-short_frame : (val : List ℕ) → length (short_frame val) % 4 ≡ 0
length-short_frame val =
    let body = length-append val (zeros ((length val + 1) % 4)) in
    omega (arith, body, length-zeros ((length val + 1) % 4) (omega arith))

length-long_frame_aligned :
    (val : List ℕ) → length val % 4 ≢ 0 → length (long_header val ++ long_body val) % 4 ≡ 0
length-long_frame_aligned val h =
    let pad : ℕ = 4 - (length val + 4) % 4 in
    ground (
      arith,
      length-append (long_header val) (long_body val),
      length-append val (replicate pad 0),
      length-replicate {A = ℕ} pad 0,
    )

length-long_frame_misaligned :
    (val : List ℕ) → length val % 4 ≡ 0 → length (long_header val ++ long_body val) % 4 ≡ 1
length-long_frame_misaligned val h = ground (arith, length-append (long_header val) (long_body val))

module _ (b : BufMut) (se : Serializer) (val : List ℕ) where
  short_grows : length val ≤ 253 → length (write_bytes b se val).output % 4 ≡ length se.output % 4
  short_grows h =
      rw (short_form_lem b se val h)
        (omega (arith, length-append se.output (short_frame val), length-short_frame val))

  long_grows :
      253 < length val
      → length val % 4 ≢ 0
      → length (write_bytes b se val).output % 4 ≡ length se.output % 4
  long_grows h p =
      let frame = long_header val ++ long_body val in
      rw (long_form_lem b se val h)
        (omega (arith, length-append se.output frame, length-long_frame_aligned val p))

  long_slips :
      253 < length val
      → length val % 4 ≡ 0
      → length (write_bytes b se val).output % 4 ≡ (length se.output + 1) % 4
  long_slips h p =
      let frame = long_header val ++ long_body val in
      rw (long_form_lem b se val h)
        (omega (arith, length-append se.output frame, length-long_frame_misaligned val p))

  -- The output keeps its alignment to 4 bytes exactly when the value has the short form, or a length
  -- that is no multiple of 4.
  pub write_bytes_aligned_iff :
      (length (write_bytes b se val).output % 4 ≡ length se.output % 4)
      ↔ ((length val ≤ 253) ⊎ (length val % 4 ≢ 0))
  write_bytes_aligned_iff = (forth, back)
    where
      forth :
          length (write_bytes b se val).output % 4 ≡ length se.output % 4
          → (length val ≤ 253) ⊎ (length val % 4 ≢ 0)
      forth e = elim (dec_lt 253 (length val)) [
        | yes long ↦ inr (λ p. omega (arith, long_slips long p))
        | no short ↦ inl (omega arith)
      ]

      back :
          (length val ≤ 253) ⊎ (length val % 4 ≢ 0)
          → length (write_bytes b se val).output % 4 ≡ length se.output % 4
      back (inl short) = short_grows short
      back (inr ragged) = elim (dec_lt 253 (length val)) [
        | yes long ↦ long_grows long ragged
        | no short ↦ short_grows (omega arith)
      ]
