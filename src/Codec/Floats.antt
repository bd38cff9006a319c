-- ===== src/Codec/Floats.antt =====
-- `fixedSliceCodec`: slices and arrays of floats and of complex numbers.
pub mod Laws
use binary.Prelude.{ℕ, zero, suc, ◌+◌, ◌*◌, ◌/◌, ◌≤◌, ◌≡◌, refl, ◌∙◌, arith, length, All}
use binary.Prelude.{
  List, [], ◌∷◌, ◌++◌, append_assoc, append-nil, length-append, leb, ltb, ◌==◌, if◌then◌else◌,
}
use binary.Prelude.{◌&&◌, take, drop, take-append, drop-append, le→ltb_false, suc-eq-zero}
use binary.Prelude.Int.{pos}
use binary.Base.{ok, M, ◌>>=◌, ◌>>◌, pure, check, unexpected_eof, wire_each}
use binary.Varint.{uvarint_bytes}
use binary.Encoder.{Encoder, write, has_buffer, little_endian}
use binary.Encoder.Laws.{write-write}
use binary.Stream.{max_int}
use binary.Decoder.{
  Decoder, read_count, ensure_available, resize_slice, max_alloc, by_source, slice,
}
use binary.Decoder.{from_little_endian}
use binary.Decoder.Laws.{Origin, in_memory, holding, slice-holding, length-little_endian}
use mathlib.Core.Path.{ap₂}
use binary.Decoder.Laws.{take-pair, drop-pair, from_little_endian-little_endian}
use binary.Decoder.Checks.{read_count-holding, ensure_available-holding, resize_slice_fits}
use binary.Decoder.Checks.{by_source-holding}
use binary.Codec.{Shape, slice_of, array_of, Fixed, floats32, floats64, complexes64, complexes128}
use binary.Codec.{FixedVal, float32, float64, complex64, complex128}
use binary.Codec.Estimates.{fixed_size}
use binary.Codec.Primitive.{encode_primitive, wire_kind, FitsKind, encode_primitive-Encodes}
use binary.Codec.Count.{count_bytes, write_count, write_count_lem, FitsShape}
use binary.Codec.Loops.{Encodes, Decodes, encode_each, encode_each-Encodes, All-of}
use binary.Decoder.Safety.{
  Safe, pure-Safe, fail-Safe, if-Safe, bind-Safe, then-Safe, check-Safe, by_source-Safe,
}
use binary.Decoder.Safety.Calls.{
  slice-Safe, read_count-Safe, ensure_available-Safe, resize_slice-Safe,
}

-- One element, written as a value of its kind.
pub encode_fixed : (f : Fixed) → FixedVal f → M Encoder (Unit {0})
encode_fixed floats32 = encode_primitive float32
encode_fixed floats64 = encode_primitive float64
encode_fixed complexes64 = encode_primitive complex64
encode_fixed complexes128 = encode_primitive complex128

pub wire_fixed : (f : Fixed) → FixedVal f → List ℕ
wire_fixed floats32 = wire_kind float32
wire_fixed floats64 = wire_kind float64
wire_fixed complexes64 = wire_kind complex64
wire_fixed complexes128 = wire_kind complex128

abbrev pub FitsFixed : (f : Fixed) → FixedVal f → Type 0
FitsFixed floats32 = FitsKind float32
FitsFixed floats64 = FitsKind float64
FitsFixed complexes64 = FitsKind complex64
FitsFixed complexes128 = FitsKind complex128

unfoldable pub wire_fixeds : Shape → (f : Fixed) → List (FixedVal f) → List ℕ
wire_fixeds sh f v = count_bytes sh (length v) ++ wire_each (wire_fixed f) v

each_fixed : Shape → (f : Fixed) → List (FixedVal f) → M Encoder (Unit {0})
each_fixed sh f v = do write_count sh (length v); encode_each (encode_fixed f) v

-- From 8 elements on a buffer gets all of it in one write. An array that has no address takes the
-- loop instead, which writes the same.
pub encode_fixeds : Shape → (f : Fixed) → List (FixedVal f) → M Encoder (Unit {0})
unfolding each_fixed wire_fixeds
encode_fixeds sh f v e =
    if leb 8 (length v) && has_buffer e
    then (ok tt, write (wire_fixeds sh f v) e)
    else each_fixed sh f v e

-- `data[i*elemSize:]` as a number, or as two.
pub fixed_of : (f : Fixed) → List ℕ → FixedVal f
fixed_of floats32 b = from_little_endian b
fixed_of floats64 b = from_little_endian b
fixed_of complexes64 b = (from_little_endian (take 4 b), from_little_endian (drop 4 b))
fixed_of complexes128 b = (from_little_endian (take 8 b), from_little_endian (drop 8 b))

-- The loop over `values`.
pub fixeds_of : (f : Fixed) → ℕ → List ℕ → List (FixedVal f)
unfolding fixed_of
fixeds_of f zero b = []
fixeds_of f (suc n) b = fixed_of f (take (fixed_size f) b) ∷ fixeds_of f n (drop (fixed_size f) b)

-- `resizeSliceChecked`, which an array does without.
resize_shape : Shape → ℕ → ℕ → M Decoder (Unit {0})
resize_shape (slice_of size) esize n = resize_slice esize n
resize_shape (array_of m) esize n = pure tt

-- The elements, once their number is known: a stream is read before the slice is made.
fixed_from_stream : Shape → (f : Fixed) → ℕ → M Decoder (List ℕ)
fixed_from_stream sh f n = do
  b ← slice (pos (n * fixed_size f))
  resize_shape sh (fixed_size f) n
  pure b

fixed_in_memory : Shape → (f : Fixed) → ℕ → M Decoder (List ℕ)
fixed_in_memory sh f n = do
  ensure_available (n * fixed_size f)
  resize_shape sh (fixed_size f) n
  if n == 0 then pure [] else slice (pos (n * fixed_size f))

fixed_elements : Shape → (f : Fixed) → ℕ → M Decoder (List (FixedVal f))
fixed_elements sh f n = do
  b ← by_source (fixed_from_stream sh f n) (fixed_in_memory sh f n)
  pure (fixeds_of f n b)

pub decode_fixeds : Shape → (f : Fixed) → M Decoder (List (FixedVal f))
unfolding fixed_elements fixed_from_stream fixed_in_memory resize_shape fixeds_of
decode_fixeds (slice_of size) f = do
  n ← read_count
  check (ltb (max_int / fixed_size f) n) unexpected_eof
  fixed_elements (slice_of size) f n
decode_fixeds (array_of m) f = fixed_elements (array_of m) f m

resize_shape-Safe : (sh : Shape) (esize n : ℕ) → Safe (resize_shape sh esize n)
unfolding resize_shape
resize_shape-Safe (slice_of size) esize n = resize_slice-Safe esize n
resize_shape-Safe (array_of m) esize n = pure-Safe tt

fixed_elements-Safe : (sh : Shape) (f : Fixed) (n : ℕ) → Safe (fixed_elements sh f n)
unfolding fixed_elements fixed_from_stream fixed_in_memory
fixed_elements-Safe sh f n =
    let size = n * fixed_size f in
    bind-Safe
      (by_source-Safe
        (bind-Safe (slice-Safe (pos size))
          λ b. then-Safe (resize_shape-Safe sh (fixed_size f) n) (pure-Safe b))
        (then-Safe (ensure_available-Safe size) (
          then-Safe (resize_shape-Safe sh (fixed_size f) n)
            (if-Safe (n == 0) (pure-Safe []) (slice-Safe (pos size))))))
      (λ b. pure-Safe _)

pub decode_fixeds-Safe : (sh : Shape) (f : Fixed) → Safe (decode_fixeds sh f)
unfolding decode_fixeds
decode_fixeds-Safe (slice_of size) f =
    bind-Safe read_count-Safe
      λ n. then-Safe (check-Safe _ unexpected_eof) (fixed_elements-Safe (slice_of size) f n)
decode_fixeds-Safe (array_of m) f = fixed_elements-Safe (array_of m) f m
