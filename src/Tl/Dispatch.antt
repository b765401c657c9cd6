-- ===== src/Tl/Dispatch.antt =====
-- Boxed values: adnl-tcp/src/types.rs, `Result<T, E>`, and `from_bytes_boxed` of deserializer.rs.
use tonlibjson.Prelude.{ℕ, ◌^◌, ◌<◌, ◌≡◌, List, [], ◌∷◌, ◌++◌, append_assoc, append-nil}
use tonlibjson.Tl.Buf.{BufMut, Buf}
use tonlibjson.Tl.Serializer.{Serializer, write_constructor_number, to_bytes_boxed}
use tonlibjson.Tl.Deserializer.{
  Parser, ok, err, unexpected_constructor_number, deserialize_error, ◌>>=◌,
  parse_constructor_number, finish, from_bytes_boxed,
}
use tonlibjson.Tl.Types.{left, right, deserialize_boxed_result, deserialize_result}
use tonlibjson.Tl.Scalars.{empty, written, IsCodec, constructor_number-IsCodec}

-- A boxed type: its constructor number, and the codec of what follows the number. It answers a
-- number that is not its own with `unexpected_constructor_number`, and reads nothing.
pub record IsBoxed {ℓ} {T : Type ℓ} (number : ℕ) (write : T → Serializer → Serializer)
    (deserialize_boxed : ℕ → Parser T) (Fits : T → Type 0) : Type ℓ where
  pub fits_word : number < 2 ^ 32
  pub codec : IsCodec write (deserialize_boxed number) Fits
  pub others :
      (n : ℕ) (input : List ℕ)
      → ¬ (n ≡ number)
      → deserialize_boxed n input ≡ err (unexpected_constructor_number n) input

-- `serialize_boxed`: the constructor number, and the fields.
abbrev pub boxed {ℓ} :
    {T : Type ℓ} → BufMut → ℕ → (T → Serializer → Serializer) → T → Serializer → Serializer
boxed b number write val se = write val (write_constructor_number b se number)

module _ {ℓ} {T : Type ℓ} (b : BufMut) (c : Buf) {t : ℕ} {write : T → Serializer → Serializer}
    {read : ℕ → Parser T} {Fits : T → Type 0} (boxed_t : IsBoxed t write read Fits) where
  boxed_bytes :
      (val : T)
      → written (boxed b t write) val
        ≡ written (λ n se. write_constructor_number b se n) t ++ written write val
  boxed_bytes val = boxed_t.codec.appends val (write_constructor_number b empty t)

  number_read :
      (val : T) (rest : List ℕ)
      → parse_constructor_number c (written (boxed b t write) val ++ rest)
        ≡ ok t (written write val ++ rest)
  number_read val rest =
      let number = written (λ n se. write_constructor_number b se n) t in
      rw (boxed_bytes val, append_assoc number (written write val) rest)
        ((constructor_number-IsCodec b c).reads t (written write val ++ rest) boxed_t.fits_word)

  finish_read :
      (val : T) (more : List ℕ)
      → Fits val
      → from_bytes_boxed c read (to_bytes_boxed (boxed b t write) val ++ more) ≡ finish val more
  unfolding from_bytes_boxed to_bytes_boxed
  finish_read val more h = rw (number_read val more, ◌>>=◌, boxed_t.codec.reads val more h, ◌>>=◌)

  -- A boxed value is read whole, and the same bytes with more behind them are an error.
  pub from_bytes_boxed-to_bytes_boxed :
      (val : T) (x : ℕ) (more : List ℕ)
      → Fits val
      → (from_bytes_boxed c read (to_bytes_boxed (boxed b t write) val) ≡ ok val [])
        × (from_bytes_boxed c read (to_bytes_boxed (boxed b t write) val ++ (x ∷ more))
            ≡ err deserialize_error (x ∷ more))
  from_bytes_boxed-to_bytes_boxed val x more h =
      (rw append-nil at (finish_read val [] h), finish_read val (x ∷ more) h)

module _ {ℓ κ} {T : Type ℓ} {E : Type κ} (b : BufMut) (c : Buf) {t e : ℕ}
    {write_t : T → Serializer → Serializer} {write_e : E → Serializer → Serializer}
    {read_t : ℕ → Parser T} {read_e : ℕ → Parser E} {FitsT : T → Type 0} {FitsE : E → Type 0}
    (boxed_t : IsBoxed t write_t read_t FitsT) (boxed_e : IsBoxed e write_e read_e FitsE) where
  -- A response that is a boxed `T` is read as one, and a response that is a boxed `E`, of another
  -- constructor number, is read as that.
  pub deserialize_result_either :
      (val : T) (error : E) (rest : List ℕ)
      → FitsT val
      → FitsE error
      → ¬ (e ≡ t)
      → (deserialize_result c read_t read_e (written (boxed b t write_t) val ++ rest)
          ≡ ok (left val) rest)
        × (deserialize_result c read_t read_e (written (boxed b e write_e) error ++ rest)
            ≡ ok (right error) rest)
  unfolding deserialize_result deserialize_boxed_result
  deserialize_result_either val error rest fits_t fits_e differ = (
    rw (
      number_read b c boxed_t val rest,
      ◌>>=◌,
      deserialize_boxed_result,
      boxed_t.codec.reads val rest fits_t,
    ),
    rw (
      number_read b c boxed_e error rest,
      ◌>>=◌,
      deserialize_boxed_result,
      boxed_t.others e (written write_e error ++ rest) differ,
      ◌>>=◌,
      boxed_e.codec.reads error rest fits_e,
    ),
  )
