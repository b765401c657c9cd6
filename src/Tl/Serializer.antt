-- ===== src/Tl/Serializer.antt =====
-- adnl-tcp/src/serializer.rs. `reserve` sets aside capacity and changes no content.
use tonlibjson.Prelude.{ℕ, ◌+◌, ◌-◌, ◌%◌, ◌^◌, List, [], length, take, leb, ltb, if◌then◌else◌}
use tonlibjson.Prelude.Words.{to_le_bytes}
use tonlibjson.Tl.Buf.{BufMut}

pub record Serializer : Type 0 where
  pub output : List ℕ

module _ (b : BufMut) where
  open b use {put_u8, put_slice, put_bytes, put_u32, put_i32_le, put_i64_le}

  unfoldable pub write_constructor_number : Serializer → ℕ → Serializer
  write_constructor_number se crc32 = record se { output = put_u32 se.output crc32 }

  unfoldable pub write_i32 : Serializer → ℕ → Serializer
  write_i32 se val = record se { output = put_i32_le se.output val }

  -- `val & 0x7fffffff`
  unfoldable pub write_i31 : Serializer → ℕ → Serializer
  write_i31 se val = record se { output = put_i32_le se.output (val % 2 ^ 31) }

  unfoldable pub write_i64 : Serializer → ℕ → Serializer
  write_i64 se val = record se { output = put_i64_le se.output val }

  unfoldable pub write_i256 : Serializer → List ℕ → Serializer
  write_i256 se val = record se { output = put_slice se.output val }

  -- `val.len() as u8` is the length mod 2 ^ 8, and `as u32` the length mod 2 ^ 32.
  short_form : List ℕ → List ℕ → List ℕ
  short_form out val =
      let padding = (length val + 1) % 4 in
      if ltb 0 padding
      then put_bytes (put_slice (put_u8 out (length val % 2 ^ 8)) val) 0 (4 - padding)
      else put_slice (put_u8 out (length val % 2 ^ 8)) val

  long_form : List ℕ → List ℕ → List ℕ
  long_form out val =
      let padding = (length val + 4) % 4 in
      let len = take 3 (to_le_bytes 4 (length val % 2 ^ 32)) in
      if ltb 0 padding
      then put_bytes (put_slice (put_slice (put_u8 out 254) len) val) 0 (4 - padding)
      else put_slice (put_u8 (put_slice (put_u8 out 254) len) (length val % 2 ^ 8)) val

  unfoldable pub write_bytes : Serializer → List ℕ → Serializer
  unfolding short_form long_form
  write_bytes se val = record se {
    output = if leb (length val) 253 then short_form se.output val else long_form se.output val;
  }

  -- `val` is the text's UTF-8 bytes.
  unfoldable pub write_string : Serializer → List ℕ → Serializer
  write_string se val = write_bytes se val

-- `to_bytes_boxed`, of a value that its type's `serialize_boxed` writes.
unfoldable pub to_bytes_boxed {ℓ} : {T : Type ℓ} → (T → Serializer → Serializer) → T → List ℕ
to_bytes_boxed serialize_boxed value = (serialize_boxed value (record { output = [] })).output
