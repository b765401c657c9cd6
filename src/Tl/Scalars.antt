-- ===== src/Tl/Scalars.antt =====
-- Fixed-width values of the wire format: what one side writes, the other reads back.
use mathlib.Core.List.{reverse}
use tonlibjson.Prelude.{
  ℕ, ◌%◌, ◌^◌, ◌<◌, ◌≡◌, refl, ap, ◌∙◌, List, [], ◌++◌, some, length, arith, split_at-append,
}
use tonlibjson.Prelude.Words.{
  to_le_bytes, from_le_bytes, length-to_le_bytes, from_le_bytes-to_le_bytes,
}
use tonlibjson.Tl.Buf.{BufMut, Buf, front_word}
use tonlibjson.Tl.Serializer.{
  Serializer, write_constructor_number, write_i32, write_i31, write_i64, write_i256,
}
use tonlibjson.Tl.Deserializer.{
  ok, Parser, taken, ◌>>=◌, parse_constructor_number, parse_i31, parse_i32, parse_i64, parse_i256,
}

abbrev pub empty : Serializer
empty = record { output = [] }

-- What a writer appends to nothing.
abbrev pub written {ℓ} : {A : Type ℓ} → (A → Serializer → Serializer) → A → List ℕ
written write a = (write a empty).output

-- A writer only appends, and the parser reads its bytes back in front of any others.
pub record IsCodec {ℓ} {A : Type ℓ} (write : A → Serializer → Serializer) (parse : Parser A)
    (Fits : A → Type 0) : Type ℓ where
  pub appends : (a : A) (se : Serializer) → (write a se).output ≡ se.output ++ written write a
  pub reads : (a : A) (rest : List ℕ) → Fits a → parse (written write a ++ rest) ≡ ok a rest

pub front_word_lem :
    (read : List ℕ → ℕ) (n : ℕ) (w rest : List ℕ)
    → n ≡ length w
    → front_word read n (w ++ rest) ≡ some (read w, rest)
front_word_lem read n w rest e = rw (split_at-append n w rest e, front_word)

le_front :
    (n v : ℕ) (rest : List ℕ)
    → v < 256 ^ n
    → front_word from_le_bytes n (to_le_bytes n v ++ rest) ≡ some (v, rest)
le_front n v rest h =
    front_word_lem from_le_bytes n (to_le_bytes n v) rest (omega (arith, length-to_le_bytes n v))
    ∙ ap (λ k. some (k, rest)) (from_le_bytes-to_le_bytes n v h)

be_front :
    (v : ℕ) (rest : List ℕ)
    → v < 2 ^ 32
    → front_word (λ w. from_le_bytes (reverse w)) 4 (reverse (to_le_bytes 4 v) ++ rest)
      ≡ some (v, rest)
be_front v rest h =
    front_word_lem (λ w. from_le_bytes (reverse w)) 4 (reverse (to_le_bytes 4 v)) rest refl
    ∙ ap (λ k. some (k, rest)) (from_le_bytes-to_le_bytes 4 v h)

module _ (c : Buf) where
  get_u32_front :
      (v : ℕ) (rest : List ℕ)
      → v < 2 ^ 32
      → c.get_u32 (reverse (to_le_bytes 4 v) ++ rest) ≡ some (v, rest)
  get_u32_front v rest h = c.get_u32_lem (reverse (to_le_bytes 4 v) ++ rest) ∙ be_front v rest h

  get_i32_le_front :
      (v : ℕ) (rest : List ℕ) → v < 2 ^ 32 → c.get_i32_le (to_le_bytes 4 v ++ rest) ≡ some (v, rest)
  get_i32_le_front v rest h = c.get_i32_le_lem (to_le_bytes 4 v ++ rest) ∙ le_front 4 v rest h

  get_i64_le_front :
      (v : ℕ) (rest : List ℕ) → v < 2 ^ 64 → c.get_i64_le (to_le_bytes 8 v ++ rest) ≡ some (v, rest)
  get_i64_le_front v rest h = c.get_i64_le_lem (to_le_bytes 8 v ++ rest) ∙ le_front 8 v rest h

  pub copy_to_slice_front :
      (n : ℕ) (v rest : List ℕ) → n ≡ length v → c.copy_to_slice n (v ++ rest) ≡ some (v, rest)
  copy_to_slice_front n v rest h = c.copy_to_slice_lem n (v ++ rest) ∙ split_at-append n v rest h

module _ (b : BufMut) (c : Buf) where
  pub constructor_number-IsCodec :
      IsCodec
        (λ v se. write_constructor_number b se v)
        (parse_constructor_number c)
        (λ v. v < 2 ^ 32)
  unfolding write_constructor_number parse_constructor_number
  constructor_number-IsCodec = record {
    appends = λ v se. rw (b.put_u32_lem se.output v, b.put_u32_lem [] v);
    reads = λ v rest h. rw (b.put_u32_lem [] v, get_u32_front c v rest h, taken);
  }

  pub i32-IsCodec : IsCodec (λ v se. write_i32 b se v) (parse_i32 c) (λ v. v < 2 ^ 32)
  unfolding write_i32 parse_i32
  i32-IsCodec = record {
    appends = λ v se. rw (b.put_i32_le_lem se.output v, b.put_i32_le_lem [] v);
    reads = λ v rest h. rw (b.put_i32_le_lem [] v, get_i32_le_front c v rest h, taken);
  }

  pub i31-IsCodec : IsCodec (λ v se. write_i31 b se v) (parse_i31 c) (λ v. v < 2 ^ 31)
  unfolding write_i31 parse_i31
  i31-IsCodec = record {
    appends =
        λ v se. rw (b.put_i32_le_lem se.output (v % 2 ^ 31), b.put_i32_le_lem [] (v % 2 ^ 31));
    reads = λ v rest h.
        let same : v % 2 ^ 31 ≡ v = omega arith in
        rw (same, b.put_i32_le_lem [] v, get_i32_le_front c v rest (omega arith), taken, ◌>>=◌)
          (ap (λ k. ok k rest) same);
  }

  pub i64-IsCodec : IsCodec (λ v se. write_i64 b se v) (parse_i64 c) (λ v. v < 2 ^ 64)
  unfolding write_i64 parse_i64
  i64-IsCodec = record {
    appends = λ v se. rw (b.put_i64_le_lem se.output v, b.put_i64_le_lem [] v);
    reads = λ v rest h. rw (b.put_i64_le_lem [] v, get_i64_le_front c v rest h, taken);
  }

  pub i256-IsCodec : IsCodec (λ v se. write_i256 b se v) (parse_i256 c) (λ v. 32 ≡ length v)
  unfolding write_i256 parse_i256
  i256-IsCodec = record {
    appends = λ v se. rw (b.put_slice_lem se.output v, b.put_slice_lem [] v);
    reads = λ v rest h. rw (b.put_slice_lem [] v, copy_to_slice_front c 32 v rest h, taken);
  }
