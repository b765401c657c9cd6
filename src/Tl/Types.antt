-- ===== src/Tl/Types.antt =====
-- adnl-tcp/src/types.rs: vectors, whatever their elements, and a response that is one of two types.
use tonlibjson.Prelude.{ℕ, zero, suc, ◌%◌, ◌^◌, List, [], ◌∷◌, length}
use tonlibjson.Tl.Buf.{BufMut, Buf}
use tonlibjson.Tl.Serializer.{Serializer, write_i31, write_i32, write_i64, write_i256}
use tonlibjson.Tl.Deserializer.{
  ok, err, panicked, Parser, pure, ◌>>=◌, deserialize_error, unexpected_constructor_number,
  parse_i31, parse_i32, parse_i64, parse_i256, parse_constructor_number,
}

-- The loop `for val in self`.
unfoldable pub serialize_each {ℓ} :
    {T : Type ℓ} → (T → Serializer → Serializer) → List T → Serializer → Serializer
serialize_each serialize [] se = se
serialize_each serialize (val ∷ vals) se = serialize_each serialize vals (serialize val se)

-- The loop `for _ in 0..len`, which pushes to `buf`.
unfoldable pub deserialize_each {ℓ} : {T : Type ℓ} → Parser T → ℕ → Parser (List T)
deserialize_each deserialize zero input = ok [] input
deserialize_each deserialize (suc len) input = elim (deserialize input) [
  | ok val rest ↦ elim (deserialize_each deserialize len rest) [
    | ok buf rest' ↦ ok (val ∷ buf) rest'
    | err e rest' ↦ err e rest'
    | panicked ↦ panicked
  ]
  | err e rest ↦ err e rest
  | panicked ↦ panicked
]

-- `impl<T> Serialize for Vector<T>`: `self.len() as i32`, and then the elements.
unfoldable pub serialize_vector {ℓ} :
    {T : Type ℓ} → BufMut → (T → Serializer → Serializer) → List T → Serializer → Serializer
serialize_vector b serialize vals se =
    serialize_each serialize vals (write_i31 b se (length vals % 2 ^ 32))

unfoldable pub deserialize_vector {ℓ} : {T : Type ℓ} → Buf → Parser T → Parser (List T)
deserialize_vector b deserialize = do len ← parse_i31 b; deserialize_each deserialize len

unfoldable pub serialize_vector_i256 : BufMut → List (List ℕ) → Serializer → Serializer
serialize_vector_i256 b = serialize_vector b (λ val se. write_i256 b se val)

unfoldable pub deserialize_vector_i256 : Buf → Parser (List (List ℕ))
deserialize_vector_i256 b = deserialize_vector b (parse_i256 b)

unfoldable pub serialize_vector_i32 : BufMut → List ℕ → Serializer → Serializer
serialize_vector_i32 b = serialize_vector b (λ val se. write_i32 b se val)

unfoldable pub deserialize_vector_i32 : Buf → Parser (List ℕ)
deserialize_vector_i32 b = deserialize_vector b (parse_i32 b)

unfoldable pub serialize_vector_i64 : BufMut → List ℕ → Serializer → Serializer
serialize_vector_i64 b = serialize_vector b (λ val se. write_i64 b se val)

unfoldable pub deserialize_vector_i64 : Buf → Parser (List ℕ)
deserialize_vector_i64 b = deserialize_vector b (parse_i64 b)

-- `Result<T, E>` on the wire: a boxed `T` or a boxed `E`.
pub data Either {ℓ κ} (T : Type ℓ) (E : Type κ) : Type (ℓ ⊔ κ) where
  left : T → Either T E
  right : E → Either T E

-- `E` is read from the input that `T` left, if `T` does not know the constructor number.
unfoldable pub deserialize_boxed_result {ℓ κ} :
    {T : Type ℓ} {E : Type κ} → (ℕ → Parser T) → (ℕ → Parser E) → ℕ → Parser (Either T E)
deserialize_boxed_result t e constructor_number input = elim (t constructor_number input) [
  | ok val rest ↦ ok (left val) rest
  | err (unexpected_constructor_number n) rest ↦
      (e constructor_number >>= λ val. pure (right val)) rest
  | err deserialize_error rest ↦ err deserialize_error rest
  | panicked ↦ panicked
]

unfoldable pub deserialize_result {ℓ κ} :
    {T : Type ℓ} {E : Type κ} → Buf → (ℕ → Parser T) → (ℕ → Parser E) → Parser (Either T E)
deserialize_result b t e = do
  constructor_number ← parse_constructor_number b
  deserialize_boxed_result t e constructor_number
