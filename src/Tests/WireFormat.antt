-- ===== src/Tests/WireFormat.antt =====
-- adnl-tcp/src/serializer.rs, deserializer.rs and types.rs at concrete inputs.
use tonlibjson.Prelude.{
  ℕ, ◌%◌, ◌^◌, ◌≤◌, ◌<◌, ◌≡◌, ◌≢◌, ◌⊎◌, ◌↔◌, refl, inr, List, [], ◌∷◌, ◌++◌, length, replicate,
  arith, ◌==◌, if◌then◌else◌, false,
}
use tonlibjson.Tl.Buf.{vec_buf_mut, slice_buf}
use tonlibjson.Tl.Serializer.{write_bytes, write_i64, write_i32, to_bytes_boxed}
use tonlibjson.Tl.Deserializer.{
  Parser, ok, err, deserialize_error, unexpected_constructor_number, parse_bytes, long_rest,
  skip_padding, parse_i64, parse_i32, from_bytes_boxed,
}
use tonlibjson.Tl.Scalars.{empty, written, i32-IsCodec, i64-IsCodec}
use tonlibjson.Tl.Padding.{write_bytes_aligned_iff}
use tonlibjson.Tl.Strings.{parse_bytes-write_bytes, parse_bytes_shifted}
use tonlibjson.Tl.Dispatch.{IsBoxed, boxed, from_bytes_boxed-to_bytes_boxed}

abbrev bytes : ℕ → List ℕ
bytes n = replicate n 1

-- The source's test `serialize_bytes_length255`.
serialize_bytes_length255 :
    (write_bytes vec_buf_mut empty (bytes 255)).output ≡ 254 ∷ 255 ∷ 0 ∷ 0 ∷ (bytes 255 ++ (0 ∷ []))
unfolding write_bytes
serialize_bytes_length255 = refl

-- The source's test `deserialize_bytes_length255`.
deserialize_bytes_length255 :
    parse_bytes slice_buf (254 ∷ 255 ∷ 0 ∷ 0 ∷ (bytes 255 ++ (0 ∷ []))) ≡ ok (bytes 255) []
unfolding parse_bytes long_rest skip_padding
deserialize_bytes_length255 = refl

write_bytes_aligned_iff_example :
    (length (write_bytes vec_buf_mut empty (bytes 256)).output % 4 ≡ 0)
    ↔ ((256 ≤ 253) ⊎ (256 % 4 ≢ 0))
write_bytes_aligned_iff_example = write_bytes_aligned_iff vec_buf_mut empty (bytes 256)

parse_bytes-write_bytes_example :
    parse_bytes slice_buf (written (λ v se. write_bytes vec_buf_mut se v) (bytes 255) ++ (9 ∷ []))
    ≡ ok (bytes 255) (9 ∷ [])
parse_bytes-write_bytes_example =
    parse_bytes-write_bytes vec_buf_mut slice_buf (bytes 255) (9 ∷ []) (omega arith)
      (inr (omega arith))

parse_bytes_shifted_example :
    parse_bytes slice_buf
      (written (λ v se. write_bytes vec_buf_mut se v) (bytes 255 ++ (7 ∷ [])) ++ (9 ∷ []))
    ≡ ok (0 ∷ bytes 255) (7 ∷ 9 ∷ [])
parse_bytes_shifted_example =
    parse_bytes_shifted vec_buf_mut slice_buf (bytes 255) 7 (9 ∷ []) (omega arith) (omega arith)
      (omega arith)

-- Two boxed types: `tcp.pong random_id:long`, and an error that carries an `int` code.
read_boxed : ℕ → Parser ℕ → ℕ → Parser ℕ
read_boxed number parse n input =
    if n == number then parse input else err (unexpected_constructor_number n) input

read_boxed_others :
    (number n : ℕ) (parse : Parser ℕ) (input : List ℕ)
    → ¬ (n ≡ number)
    → read_boxed number parse n input ≡ err (unexpected_constructor_number n) input
unfolding read_boxed
read_boxed_others number n parse input h =
    let other : (n == number) ≡ false = ground arith in rw other

pong-IsBoxed :
    IsBoxed 0xdc69fb03
      (λ v se. write_i64 vec_buf_mut se v)
      (read_boxed 0xdc69fb03 (parse_i64 slice_buf))
      (λ v. v < 2 ^ 64)
pong-IsBoxed = record {
  fits_word = omega arith;
  codec = record {
    appends = (i64-IsCodec vec_buf_mut slice_buf).appends;
    reads = λ v rest h. unfold read_boxed in (i64-IsCodec vec_buf_mut slice_buf).reads v rest h;
  };
  others = λ n input h. read_boxed_others 0xdc69fb03 n (parse_i64 slice_buf) input h;
}

error-IsBoxed :
    IsBoxed 0xbba9e148
      (λ v se. write_i32 vec_buf_mut se v)
      (read_boxed 0xbba9e148 (parse_i32 slice_buf))
      (λ v. v < 2 ^ 32)
error-IsBoxed = record {
  fits_word = omega arith;
  codec = record {
    appends = (i32-IsCodec vec_buf_mut slice_buf).appends;
    reads = λ v rest h. unfold read_boxed in (i32-IsCodec vec_buf_mut slice_buf).reads v rest h;
  };
  others = λ n input h. read_boxed_others 0xbba9e148 n (parse_i32 slice_buf) input h;
}

abbrev pong : ℕ → List ℕ
pong = to_bytes_boxed (boxed vec_buf_mut 0xdc69fb03 (λ v se. write_i64 vec_buf_mut se v))

abbrev read_pong : ℕ → Parser ℕ
read_pong = read_boxed 0xdc69fb03 (parse_i64 slice_buf)

abbrev read_error : ℕ → Parser ℕ
read_error = read_boxed 0xbba9e148 (parse_i32 slice_buf)

from_bytes_boxed-to_bytes_boxed_example :
    (from_bytes_boxed slice_buf read_pong (pong 5) ≡ ok 5 [])
    × (from_bytes_boxed slice_buf read_pong (pong 5 ++ (1 ∷ 2 ∷ []))
        ≡ err deserialize_error (1 ∷ 2 ∷ []))
from_bytes_boxed-to_bytes_boxed_example =
    from_bytes_boxed-to_bytes_boxed vec_buf_mut slice_buf pong-IsBoxed 5 1 (2 ∷ []) (omega arith)
