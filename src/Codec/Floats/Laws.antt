-- ===== src/Codec/Floats/Laws.antt =====
-- `fixedSliceCodec` against its wire format.
use binary.Prelude.{ℕ, ◌+◌, ◌*◌, ◌/◌, ◌≤◌, ◌≡◌, refl, ◌∙◌, arith, length, All}
use binary.Prelude.{
  List, [], ◌∷◌, ◌++◌, append_assoc, append-nil, length-append, ◌==◌, if◌then◌else◌,
}
use binary.Prelude.{take-append, drop-append, le→ltb_false, suc-eq-zero}
use binary.Prelude.Int.{pos}
use binary.Base.{ok, pure, wire_each}
use binary.Varint.{uvarint_bytes}
use binary.Encoder.{little_endian}
use binary.Encoder.Laws.{write-write}
use binary.Stream.{max_int}
use binary.Decoder.{Decoder, max_alloc, slice}
use binary.Decoder.Laws.{Origin, in_memory, holding, slice-holding, length-little_endian}
use mathlib.Core.Path.{ap₂}
use binary.Decoder.Laws.{take-pair, drop-pair, from_little_endian-little_endian}
use binary.Decoder.Checks.{read_count-holding, ensure_available-holding, resize_slice_fits}
use binary.Decoder.Checks.{by_source-holding}
use binary.Codec.{Shape, slice_of, array_of, Fixed, floats32, floats64, complexes64, complexes128}
use binary.Codec.{FixedVal, float32, float64, complex64, complex128}
use binary.Codec.Estimates.{fixed_size}
use binary.Codec.Primitive.{wire_kind, encode_primitive-Encodes}
use binary.Codec.Count.{count_bytes, write_count_lem, FitsShape}
use binary.Codec.Loops.{Encodes, Decodes, encode_each-Encodes, All-of}
use binary.Codec.Floats.{
  encode_fixed, wire_fixed, FitsFixed, wire_fixeds, each_fixed, encode_fixeds, fixed_of, fixeds_of,
  resize_shape, fixed_from_stream, fixed_in_memory, fixed_elements, decode_fixeds,
}

encode_fixed-Encodes : (f : Fixed) (x : FixedVal f) → Encodes (encode_fixed f) (wire_fixed f) x
unfolding encode_fixed wire_fixed
encode_fixed-Encodes floats32 x = encode_primitive-Encodes float32 x
encode_fixed-Encodes floats64 x = encode_primitive-Encodes float64 x
encode_fixed-Encodes complexes64 x = encode_primitive-Encodes complex64 x
encode_fixed-Encodes complexes128 x = encode_primitive-Encodes complex128 x

each_fixed-Encodes :
    (sh : Shape) (f : Fixed) (v : List (FixedVal f))
    → Encodes (each_fixed sh f) (wire_fixeds sh f) v
unfolding each_fixed wire_fixeds
each_fixed-Encodes sh f v e = rw (
  write_count_lem,
  encode_each-Encodes (encode_fixed f) (wire_fixed f) v (All-of _ v (encode_fixed-Encodes f)),
  write-write,
)

pub encode_fixeds-Encodes :
    (sh : Shape) (f : Fixed) (v : List (FixedVal f))
    → Encodes (encode_fixeds sh f) (wire_fixeds sh f) v
unfolding encode_fixeds
encode_fixeds-Encodes sh f v e = ground (arith, each_fixed-Encodes sh f v e)

pub length-wire_fixed : (f : Fixed) (x : FixedVal f) → length (wire_fixed f x) ≡ fixed_size f
unfolding wire_fixed wire_kind
length-wire_fixed floats32 x = length-little_endian 4 x
length-wire_fixed floats64 x = length-little_endian 8 x
length-wire_fixed complexes64 (x, y) =
    length-append (little_endian 4 x) (little_endian 4 y)
    ∙ ap₂ ◌+◌ (length-little_endian 4 x) (length-little_endian 4 y)
length-wire_fixed complexes128 (x, y) =
    length-append (little_endian 8 x) (little_endian 8 y)
    ∙ ap₂ ◌+◌ (length-little_endian 8 x) (length-little_endian 8 y)

fixed_of-wire_fixed : (f : Fixed) (x : FixedVal f) → FitsFixed f x → fixed_of f (wire_fixed f x) ≡ x
unfolding fixed_of wire_fixed wire_kind
fixed_of-wire_fixed floats32 x h = from_little_endian-little_endian 4 x h
fixed_of-wire_fixed floats64 x h = from_little_endian-little_endian 8 x h
fixed_of-wire_fixed complexes64 (x, y) h = rw (
  take-pair in_memory 4 x y [] [],
  drop-pair in_memory 4 x y [] [],
  from_little_endian-little_endian 4 x h.0,
  from_little_endian-little_endian 4 y h.1,
)
fixed_of-wire_fixed complexes128 (x, y) h = rw (
  take-pair in_memory 8 x y [] [],
  drop-pair in_memory 8 x y [] [],
  from_little_endian-little_endian 8 x h.0,
  from_little_endian-little_endian 8 y h.1,
)

fixeds_of-wire_each :
    (f : Fixed) (v : List (FixedVal f))
    → All (FitsFixed f) v
    → fixeds_of f (length v) (wire_each (wire_fixed f) v) ≡ v
unfolding fixeds_of wire_each
fixeds_of-wire_each f [] h = refl
fixeds_of-wire_each f (x ∷ v) h =
    let body : List ℕ = wire_each (wire_fixed f) v in
    let front = rw length-wire_fixed at (take-append (wire_fixed f x) body) in
    let back = rw length-wire_fixed at (drop-append (wire_fixed f x) body) in
    rw (front, back, fixed_of-wire_fixed f x h.0, fixeds_of-wire_each f v h.1)

pub length-wire_fixeds :
    (f : Fixed) (v : List (FixedVal f))
    → length (wire_each (wire_fixed f) v) ≡ length v * fixed_size f
unfolding wire_each
length-wire_fixeds f [] = omega arith
length-wire_fixeds f (x ∷ v) =
    rw (length-append, length-wire_fixed f x, length-wire_fixeds f v) (omega arith)

-- A slice or array of floats that can be in memory.
abbrev pub FitsFixeds : Shape → (f : Fixed) → List (FixedVal f) → Type 0
FitsFixeds sh f v = FitsShape sh v × All (FitsFixed f) v × (length v * fixed_size f ≤ max_alloc)

size_checks :
    (f : Fixed) (n : ℕ)
    → n * fixed_size f ≤ max_alloc
    → (n ≤ max_int / 2) × (n ≤ max_int / fixed_size f)
size_checks floats32 n h = omega arith
size_checks floats64 n h = omega arith
size_checks complexes64 n h = omega arith
size_checks complexes128 n h = omega arith

resize_shape_fits :
    (sh : Shape) (f : Fixed) (n : ℕ) (d : Decoder)
    → n ≤ max_int / 2
    → n * fixed_size f ≤ max_alloc
    → resize_shape sh (fixed_size f) n d ≡ (ok tt, d)
unfolding resize_shape
resize_shape_fits (slice_of size) f n d h g = resize_slice_fits (fixed_size f) n d h g
resize_shape_fits (array_of m) f n d h g = refl

module _ (sh : Shape) (f : Fixed) (v : List (FixedVal f))
    (fits : length v * fixed_size f ≤ max_alloc) where
  abbrev body : List ℕ
  body = wire_each (wire_fixed f) v

  slice-body :
      (k : Origin) (front rest : List ℕ)
      → slice (pos (length v * fixed_size f)) (holding k front (body ++ rest))
        ≡ (ok body, holding k (front ++ body) rest)
  slice-body k front rest =
      let size = length-wire_fixeds f v in
      let read = slice-holding k body front rest (rw size (omega arith)) in rw size at read

  fixed_from_stream-holding :
      (k : Origin) (front rest : List ℕ)
      → fixed_from_stream sh f (length v) (holding k front (body ++ rest))
        ≡ (ok body, holding k (front ++ body) rest)
  unfolding fixed_from_stream
  fixed_from_stream-holding k front rest = rw (
    slice-body k front rest,
    resize_shape_fits sh f (length v) (holding k (front ++ body) rest) (size_checks f _ fits).0
        fits,
  )

-- An empty slice is not read at all.
last_read :
    (f : Fixed) (v : List (FixedVal f)) (front rest : List ℕ)
    → length v * fixed_size f ≤ max_alloc
    → (if length v == 0 then pure [] else slice (pos (length v * fixed_size f)))
        (holding in_memory front (wire_each (wire_fixed f) v ++ rest))
      ≡ (
        ok (wire_each (wire_fixed f) v),
        holding in_memory (front ++ wire_each (wire_fixed f) v) rest,
      )
last_read f [] front rest fits = unfold wire_each in rw append-nil
last_read f (x ∷ v) front rest fits =
    rw (suc-eq-zero (length v)) (slice-body (array_of 0) f (x ∷ v) fits in_memory front rest)

fixed_in_memory-holding :
    (sh : Shape) (f : Fixed) (v : List (FixedVal f)) (front rest : List ℕ)
    → length v * fixed_size f ≤ max_alloc
    → fixed_in_memory sh f (length v) (holding in_memory front (wire_each (wire_fixed f) v ++ rest))
      ≡ (
        ok (wire_each (wire_fixed f) v),
        holding in_memory (front ++ wire_each (wire_fixed f) v) rest,
      )
unfolding fixed_in_memory
fixed_in_memory-holding sh f v front rest fits =
    let body : List ℕ = wire_each (wire_fixed f) v in
    let here = holding in_memory front (body ++ rest) in
    let room : length v * fixed_size f ≤ length (body ++ rest) =
      rw (length-append body rest, length-wire_fixeds f v) (omega arith) in
    rw
      (
        ensure_available-holding in_memory (length v * fixed_size f) front (body ++ rest) room,
        resize_shape_fits sh f (length v) here (size_checks f _ fits).0 fits,
      )
      (last_read f v front rest fits)

fixed_elements-holding :
    (sh : Shape) (f : Fixed) (v : List (FixedVal f)) (k : Origin) (front rest : List ℕ)
    → All (FitsFixed f) v
    → length v * fixed_size f ≤ max_alloc
    → fixed_elements sh f (length v) (holding k front (wire_each (wire_fixed f) v ++ rest))
      ≡ (ok v, holding k (front ++ wire_each (wire_fixed f) v) rest)
unfolding fixed_elements
fixed_elements-holding sh f v k front rest h fits =
    let body : List ℕ = wire_each (wire_fixed f) v in
    rw (
      by_source-holding (fixed_from_stream sh f (length v)) (fixed_in_memory sh f (length v)) front
          (body ++ rest) (λ k. (ok body, holding k (front ++ body) rest))
          (λ k. fixed_from_stream-holding sh f v fits k front rest)
          (fixed_in_memory-holding sh f v front rest fits) k,
      fixeds_of-wire_each f v h,
    )

pub decode_fixeds-Decodes :
    (sh : Shape) (f : Fixed) (v : List (FixedVal f))
    → FitsFixeds sh f v
    → Decodes (decode_fixeds sh f) (wire_fixeds sh f) v
unfolding decode_fixeds wire_fixeds count_bytes
decode_fixeds-Decodes (slice_of size) f v h k front rest =
    let body : List ℕ = wire_each (wire_fixed f) v in
    let checks = size_checks f (length v) h.2 in
    rw (
      append_assoc,
      read_count-holding k (length v) front (body ++ rest) (omega arith),
      le→ltb_false (max_int / fixed_size f) (length v) checks.1,
      fixed_elements-holding (slice_of size) f v k (front ++ uvarint_bytes (length v)) rest h.1 h.2,
      append_assoc,
    )
decode_fixeds-Decodes (array_of m) f v h k front rest =
    rw (← h.0) (fixed_elements-holding (array_of (length v)) f v k front rest h.1 h.2)
