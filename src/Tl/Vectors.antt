-- ===== src/Tl/Vectors.antt =====
-- The vectors of adnl-tcp/src/types.rs: a vector's codec from its elements' codec.
use tonlibjson.Prelude.{
  ℕ, ◌%◌, ◌^◌, ◌<◌, ◌≡◌, refl, sym, List, [], ◌∷◌, ◌++◌, length, All, arith, append_assoc,
  append-nil,
}
use tonlibjson.Tl.Buf.{BufMut, Buf}
use tonlibjson.Tl.Serializer.{Serializer, write_i31}
use tonlibjson.Tl.Deserializer.{Parser, ok, ◌>>=◌}
use tonlibjson.Tl.Types.{
  serialize_each, deserialize_each, serialize_vector, deserialize_vector, serialize_vector_i256,
  deserialize_vector_i256, serialize_vector_i32, deserialize_vector_i32, serialize_vector_i64,
  deserialize_vector_i64,
}
use tonlibjson.Tl.Scalars.{
  empty, written, IsCodec, i31-IsCodec, i32-IsCodec, i64-IsCodec, i256-IsCodec,
}

module _ {ℓ} {A : Type ℓ} {write : A → Serializer → Serializer} {parse : Parser A}
    {Fits : A → Type 0} (codec : IsCodec write parse Fits) where
  each_appends :
      (vals : List A) (se : Serializer)
      → (serialize_each write vals se).output ≡ se.output ++ written (serialize_each write) vals
  unfolding serialize_each
  each_appends [] se = sym (append-nil se.output)
  each_appends (val ∷ vals) se =
      rw
        (
          each_appends vals (write val se),
          codec.appends val se,
          each_appends vals (write val empty),
        )
        (append_assoc se.output (written write val) (written (serialize_each write) vals))

  each_reads :
      (vals : List A) (rest : List ℕ)
      → All Fits vals
      → deserialize_each parse (length vals) (written (serialize_each write) vals ++ rest)
        ≡ ok vals rest
  unfolding serialize_each deserialize_each
  each_reads [] rest h = refl
  each_reads (val ∷ vals) rest h =
      let tail = written (serialize_each write) vals in
      rw (
        each_appends vals (write val empty),
        append_assoc (written write val) tail rest,
        codec.reads val (tail ++ rest) h.0,
        deserialize_each,
        each_reads vals rest h.1,
      )

  -- A vector of fewer than 2 ^ 31 elements is read back if each element is.
  pub vector-IsCodec :
      (b : BufMut) (c : Buf)
      → IsCodec
          (serialize_vector b write)
          (deserialize_vector c parse)
          (λ vals. (length vals < 2 ^ 31) × All Fits vals)
  unfolding serialize_vector deserialize_vector
  vector-IsCodec b c = record {
    appends = λ vals se.
        let n = length vals % 2 ^ 32 in
        rw
          (
            each_appends vals (write_i31 b se n),
            (i31-IsCodec b c).appends n se,
            each_appends vals (write_i31 b empty n),
          )
          (append_assoc se.output (write_i31 b empty n).output
            (written (serialize_each write) vals));
    reads = λ vals rest h.
        let n = length vals % 2 ^ 32 in
        let fits : n ≡ length vals = omega arith in
        let tail = written (serialize_each write) vals in
        rw (
          each_appends vals (write_i31 b empty n),
          append_assoc (write_i31 b empty n).output tail rest,
          (i31-IsCodec b c).reads n (tail ++ rest) (omega arith),
          ◌>>=◌,
          fits,
          each_reads vals rest h.1,
        );
  }

module _ (b : BufMut) (c : Buf) where
  -- `Vector<Int256>` is read back, if it has fewer than 2 ^ 31 elements, each of 32 bytes.
  pub deserialize-serialize_vector_i256 :
      (vals : List (List ℕ)) (rest : List ℕ)
      → length vals < 2 ^ 31
      → All (λ val. 32 ≡ length val) vals
      → deserialize_vector_i256 c (written (serialize_vector_i256 b) vals ++ rest) ≡ ok vals rest
  unfolding serialize_vector_i256 deserialize_vector_i256
  deserialize-serialize_vector_i256 vals rest n h =
      (vector-IsCodec (i256-IsCodec b c) b c).reads vals rest (n, h)

  -- `Vector<Int32>` and `Vector<Int64>` are read back, if they have fewer than 2 ^ 31 elements.
  pub deserialize-serialize_vector_ints :
      (ints longs : List ℕ) (rest : List ℕ)
      → (length ints < 2 ^ 31) × All (λ val. val < 2 ^ 32) ints
      → (length longs < 2 ^ 31) × All (λ val. val < 2 ^ 64) longs
      → (deserialize_vector_i32 c (written (serialize_vector_i32 b) ints ++ rest) ≡ ok ints rest)
        × (deserialize_vector_i64 c (written (serialize_vector_i64 b) longs ++ rest)
            ≡ ok longs rest)
  unfolding serialize_vector_i32 deserialize_vector_i32 serialize_vector_i64 deserialize_vector_i64
  deserialize-serialize_vector_ints ints longs rest h k = (
    (vector-IsCodec (i32-IsCodec b c) b c).reads ints rest h,
    (vector-IsCodec (i64-IsCodec b c) b c).reads longs rest k,
  )
