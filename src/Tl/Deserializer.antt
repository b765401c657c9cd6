-- ===== src/Tl/Deserializer.antt =====
-- adnl-tcp/src/deserializer.rs. A parser is a function of the input that is left. It answers with a
-- value, with an error, both with the input that they leave, or panics, as the crate `bytes` does at
-- the end of the input.
use tonlibjson.Prelude.{
  ℕ, ◌+◌, ◌-◌, ◌%◌, ◌^◌, Option, none, some, Bool, List, [], ◌∷◌, leb, ltb, if◌then◌else◌,
}
use tonlibjson.Prelude.Words.{from_le_bytes}
use tonlibjson.Tl.Buf.{Buf}

-- `deserialize_error` stands for every `anyhow::Error` that the code wraps.
pub data DeserializerBoxedError : Type 0 where
  unexpected_constructor_number : ℕ → DeserializerBoxedError
  deserialize_error : DeserializerBoxedError

pub data Parsed {ℓ} (A : Type ℓ) : Type ℓ where
  ok : A → List ℕ → Parsed A
  err : DeserializerBoxedError → List ℕ → Parsed A
  panicked : Parsed A

abbrev pub Parser {ℓ} : Type ℓ → Type ℓ
Parser A = List ℕ → Parsed A

-- The `?` operator.
infixl 5 ◌>>=◌ ◌>>◌
abbrev pub ◌>>=◌ {ℓ κ} : {A : Type ℓ} {B : Type κ} → Parser A → (A → Parser B) → Parser B
◌>>=◌ p f input = elim (p input) [
  | ok a rest ↦ f a rest
  | err e rest ↦ err e rest
  | panicked ↦ panicked
]

abbrev pub ◌>>◌ {ℓ κ} : {A : Type ℓ} {B : Type κ} → Parser A → Parser B → Parser B
◌>>◌ p q = p >>= λ _. q

abbrev pub pure {ℓ} : {A : Type ℓ} → A → Parser A
pure a input = ok a input

-- A read of the crate `bytes` that panics on `none`.
abbrev pub taken {ℓ} : {A : Type ℓ} → (List ℕ → Option (A × List ℕ)) → Parser A
taken get input = elim (get input) [ none ↦ panicked | some (a, rest) ↦ ok a rest ]

abbrev pub skipped : (List ℕ → Option (List ℕ)) → Parser (Unit {0})
skipped advance input = elim (advance input) [ none ↦ panicked | some rest ↦ ok tt rest ]

module _ (b : Buf) where
  open b use {get_u8, get_u32, get_i32_le, get_i64_le, copy_to_slice, advance}

  unfoldable pub parse_constructor_number : Parser ℕ
  parse_constructor_number = taken get_u32

  -- `& 0x7fffffff`
  unfoldable pub parse_i31 : Parser ℕ
  parse_i31 = do val ← taken get_i32_le; pure (val % 2 ^ 31)

  unfoldable pub parse_i32 : Parser ℕ
  parse_i32 = taken get_i32_le

  unfoldable pub parse_i64 : Parser ℕ
  parse_i64 = taken get_i64_le

  unfoldable pub parse_i256 : Parser (List ℕ)
  parse_i256 = taken (copy_to_slice 32)

  -- `self.input.advance(4 - padding)`, where there is padding.
  unfoldable pub skip_padding : ℕ → Parser (Unit {0})
  skip_padding padding = if ltb 0 padding then skipped (advance (4 - padding)) else pure tt

  -- `len + 1` is a `u8` sum: it is made for `len <= 253` alone, and does not overflow.
  unfoldable pub short_rest : ℕ → Parser (List ℕ)
  short_rest len = do result ← taken (copy_to_slice len); skip_padding ((len + 1) % 4); pure result

  unfoldable pub long_rest : Parser (List ℕ)
  long_rest = do
    low ← taken (copy_to_slice 3)
    let len = from_le_bytes low
    result ← taken (copy_to_slice len)
    skip_padding (len % 4)
    pure result

  unfoldable pub parse_bytes : Parser (List ℕ)
  parse_bytes = do len ← taken get_u8; if leb len 253 then short_rest len else long_rest

  -- `String::from_utf8` fails on bytes that are no UTF-8; `is_utf8` says which are.
  unfoldable pub parse_string : (List ℕ → Bool) → Parser (List ℕ)
  parse_string is_utf8 = do
    bytes ← parse_bytes
    if is_utf8 bytes then pure bytes else err deserialize_error

-- `if deserializer.input.is_empty()`, with `bail!` otherwise.
abbrev pub finish {ℓ} : {T : Type ℓ} → T → Parser T
finish t [] = ok t []
finish t (x ∷ rest) = err deserialize_error (x ∷ rest)

-- For a type with the given `deserialize_boxed`. The source makes one `anyhow::Error` of all errors.
unfoldable pub from_bytes_boxed {ℓ} : {T : Type ℓ} → Buf → (ℕ → Parser T) → List ℕ → Parsed T
from_bytes_boxed b deserialize_boxed = parse_constructor_number b >>= λ constructor_number.
    deserialize_boxed constructor_number >>= finish
