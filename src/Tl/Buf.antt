-- ===== src/Tl/Buf.antt =====
-- The part of the crate `bytes` that serializer.rs and deserializer.rs call, by its documentation:
-- `BufMut` for `Vec<u8>` appends, `Buf` for `&[u8]` takes from the front and panics (`none`) on a
-- slice that is too short.
use mathlib.Core.List.{reverse}
use tonlibjson.Prelude.{ℕ, ◌≡◌, refl, Option, none, some, List, [], ◌∷◌, ◌++◌, split_at, replicate}
use tonlibjson.Prelude.Words.{to_le_bytes, from_le_bytes}

pub record BufMut : Type 0 where
  pub put_u8 : List ℕ → ℕ → List ℕ
  pub put_slice : List ℕ → List ℕ → List ℕ
  pub put_bytes : List ℕ → ℕ → ℕ → List ℕ
  pub put_u32 : List ℕ → ℕ → List ℕ
  pub put_i32_le : List ℕ → ℕ → List ℕ
  pub put_i64_le : List ℕ → ℕ → List ℕ
  pub put_u8_lem : (out : List ℕ) (v : ℕ) → put_u8 out v ≡ out ++ (v ∷ [])
  pub put_slice_lem : (out src : List ℕ) → put_slice out src ≡ out ++ src
  pub put_bytes_lem : (out : List ℕ) (v n : ℕ) → put_bytes out v n ≡ out ++ replicate n v
  pub put_u32_lem : (out : List ℕ) (v : ℕ) → put_u32 out v ≡ out ++ reverse (to_le_bytes 4 v)
  pub put_i32_le_lem : (out : List ℕ) (v : ℕ) → put_i32_le out v ≡ out ++ to_le_bytes 4 v
  pub put_i64_le_lem : (out : List ℕ) (v : ℕ) → put_i64_le out v ≡ out ++ to_le_bytes 8 v

-- The number that the first `n` bytes stand for under `read`, and the bytes behind them.
abbrev pub front_word : (List ℕ → ℕ) → ℕ → List ℕ → Option (ℕ × List ℕ)
front_word read n bs = elim (split_at n bs) [ none ↦ none | some (h, t) ↦ some (read h, t) ]

abbrev pub advanced : ℕ → List ℕ → Option (List ℕ)
advanced n bs = elim (split_at n bs) [ none ↦ none | some (h, t) ↦ some t ]

pub record Buf : Type 0 where
  pub get_u8 : List ℕ → Option (ℕ × List ℕ)
  pub get_u32 : List ℕ → Option (ℕ × List ℕ)
  pub get_i32_le : List ℕ → Option (ℕ × List ℕ)
  pub get_i64_le : List ℕ → Option (ℕ × List ℕ)
  pub copy_to_slice : ℕ → List ℕ → Option (List ℕ × List ℕ)
  pub advance : ℕ → List ℕ → Option (List ℕ)
  pub get_u8_lem : (bs : List ℕ) → get_u8 bs ≡ front_word from_le_bytes 1 bs
  pub get_u32_lem : (bs : List ℕ) → get_u32 bs ≡ front_word (λ w. from_le_bytes (reverse w)) 4 bs
  pub get_i32_le_lem : (bs : List ℕ) → get_i32_le bs ≡ front_word from_le_bytes 4 bs
  pub get_i64_le_lem : (bs : List ℕ) → get_i64_le bs ≡ front_word from_le_bytes 8 bs
  pub copy_to_slice_lem : (n : ℕ) (bs : List ℕ) → copy_to_slice n bs ≡ split_at n bs
  pub advance_lem : (n : ℕ) (bs : List ℕ) → advance n bs ≡ advanced n bs

-- Both interfaces can be met.
abbrev pub vec_buf_mut : BufMut
vec_buf_mut = record {
  put_u8 = λ out v. out ++ (v ∷ []);
  put_slice = λ out src. out ++ src;
  put_bytes = λ out v n. out ++ replicate n v;
  put_u32 = λ out v. out ++ reverse (to_le_bytes 4 v);
  put_i32_le = λ out v. out ++ to_le_bytes 4 v;
  put_i64_le = λ out v. out ++ to_le_bytes 8 v;
  put_u8_lem = λ out v. refl;
  put_slice_lem = λ out src. refl;
  put_bytes_lem = λ out v n. refl;
  put_u32_lem = λ out v. refl;
  put_i32_le_lem = λ out v. refl;
  put_i64_le_lem = λ out v. refl;
}

abbrev pub slice_buf : Buf
slice_buf = record {
  get_u8 = front_word from_le_bytes 1;
  get_u32 = front_word (λ w. from_le_bytes (reverse w)) 4;
  get_i32_le = front_word from_le_bytes 4;
  get_i64_le = front_word from_le_bytes 8;
  copy_to_slice = split_at;
  advance = advanced;
  get_u8_lem = λ bs. refl;
  get_u32_lem = λ bs. refl;
  get_i32_le_lem = λ bs. refl;
  get_i64_le_lem = λ bs. refl;
  copy_to_slice_lem = λ n bs. refl;
  advance_lem = λ n bs. refl;
}
