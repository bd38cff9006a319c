-- ===== src/Codec/Primitive.antt =====
-- `primitiveCodec`: strings, Booleans, integers, floats and complex numbers.
use binary.Prelude.{ℕ, ◌/◌, ◌^◌, ◌≤◌, ◌<◌, ◌≡◌, arith, length}
use binary.Prelude.{List, ◌++◌, append_assoc, length-append}
use binary.Prelude.Int.{ℤ, pos, negsuc, InRange}
use binary.Base.{M, ◌>>=◌, pure}
use binary.Varint.{uvarint_bytes, varint_bytes}
use binary.Varint.Shape.{length-uvarint_bytes, varint_bytes-eq-uvarint_bytes}
use binary.Encoder.{Encoder, write_string, write_bool, write_varint, write_uvarint}
use binary.Encoder.{write_complex64, write_complex128, write_float32, write_float64}
use binary.Encoder.{little_endian, bool_byte}
use binary.Encoder.Laws.{write_string_lem, write_bool_lem, write_varint_lem, write_uvarint_lem}
use binary.Encoder.Laws.{write_fixed_lem, write_complex_lem}
use binary.Stream.{max_int}
use binary.Reader.Bulk.{to_signed, to_unsigned}
use binary.Decoder.{Decoder, read_string, read_bool, read_varint, read_uvarint}
use binary.Decoder.{read_complex64, read_complex128, read_float32, read_float64}
use binary.Decoder.Laws.{read_slice-holding, read_bool-holding, read_varint-holding}
use binary.Decoder.Laws.{read_uvarint-holding, read_fixed-holding, read_string_lem, read_float_lem}
use binary.Decoder.Laws.{read_complex64-holding, read_complex128-holding, length-little_endian}
use binary.Prelude.{true, false}
use binary.Codec.{Width, w8, w16, w32, w64, bits, Kind, string, bool, int, uint, float32, float64}
use binary.Codec.{complex64, complex128, KindVal}
use binary.Codec.Loops.{emit, Encodes, Decodes}
use binary.Decoder.Safety.{Safe, pure-Safe, bind-Safe}
use binary.Decoder.Safety.Calls.{
  read_string-Safe, read_bool-Safe, read_varint-Safe, read_uvarint-Safe, read_float-Safe,
  read_complex-Safe,
}

-- The types of the language: a float32 or complex64 type with a name of its own, whose value goes through a
-- float64 on the way, is taken like these, which only a signaling NaN tells apart.
unfoldable pub encode_primitive : (k : Kind) → KindVal k → M Encoder (Unit {0})
encode_primitive string v = emit (write_string v)
encode_primitive bool v = emit (write_bool v)
encode_primitive (int w) v = emit (write_varint v)
encode_primitive (uint w) v = emit (write_uvarint v)
encode_primitive complex64 (re, im) = emit (write_complex64 re im)
encode_primitive complex128 (re, im) = emit (write_complex128 re im)
encode_primitive float32 v = emit (write_float32 v)
encode_primitive float64 v = emit (write_float64 v)

-- `SetInt` and `SetUint` cut the number to the width of the target.
unfoldable pub decode_primitive : (k : Kind) → M Decoder (KindVal k)
decode_primitive string = read_string
decode_primitive bool = read_bool
decode_primitive (int w) = do v ← read_varint; pure (to_signed (bits w) v)
decode_primitive (uint w) = do v ← read_uvarint; pure (to_unsigned (bits w) v)
decode_primitive complex64 = read_complex64
decode_primitive complex128 = read_complex128
decode_primitive float32 = read_float32
decode_primitive float64 = read_float64

-- The values of a Go type of that kind.
abbrev pub FitsKind : (k : Kind) → KindVal k → Type 0
FitsKind string v = length v ≤ max_int / 2
FitsKind bool v = Unit {0}
FitsKind (int w) v = InRange (bits w) v
FitsKind (uint w) v = v < 2 ^ bits w
FitsKind float32 v = v < 2 ^ 32
FitsKind float64 v = v < 2 ^ 64
FitsKind complex64 (re, im) = (re < 2 ^ 32) × (im < 2 ^ 32)
FitsKind complex128 (re, im) = (re < 2 ^ 64) × (im < 2 ^ 64)

-- The wire format of each kind.
unfoldable pub wire_kind : (k : Kind) → KindVal k → List ℕ
wire_kind string v = uvarint_bytes (length v) ++ v
wire_kind bool v = bool_byte v
wire_kind (int w) v = varint_bytes v
wire_kind (uint w) v = uvarint_bytes v
wire_kind float32 v = little_endian 4 v
wire_kind float64 v = little_endian 8 v
wire_kind complex64 (re, im) = little_endian 4 re ++ little_endian 4 im
wire_kind complex128 (re, im) = little_endian 8 re ++ little_endian 8 im

pub encode_primitive-Encodes :
    (k : Kind) (v : KindVal k) → Encodes (encode_primitive k) (wire_kind k) v
unfolding encode_primitive wire_kind
encode_primitive-Encodes string v e = rw (write_string_lem v e)
encode_primitive-Encodes bool v e = rw (write_bool_lem v e)
encode_primitive-Encodes (int w) v e = rw (write_varint_lem v e)
encode_primitive-Encodes (uint w) v e = rw (write_uvarint_lem v e)
encode_primitive-Encodes complex64 (re, im) e = rw ((write_complex_lem re im e).0)
encode_primitive-Encodes complex128 (re, im) e = rw ((write_complex_lem re im e).1)
encode_primitive-Encodes float32 v e = rw ((write_fixed_lem v e).1)
encode_primitive-Encodes float64 v e = rw ((write_fixed_lem v e).2)

pub to_signed_self : (w : Width) (v : ℤ) → InRange (bits w) v → to_signed (bits w) v ≡ v
to_signed_self w8 (pos n) h = ground arith
to_signed_self w8 (negsuc n) h = ground arith
to_signed_self w16 (pos n) h = ground arith
to_signed_self w16 (negsuc n) h = ground arith
to_signed_self w32 (pos n) h = ground arith
to_signed_self w32 (negsuc n) h = ground arith
to_signed_self w64 (pos n) h = ground arith
to_signed_self w64 (negsuc n) h = ground arith

-- Every width fits the 64 bits of the wire.
pub widen : (w : Width) (v : ℤ) → InRange (bits w) v → InRange 64 v
widen w8 (pos n) h = omega arith
widen w8 (negsuc n) h = omega arith
widen w16 (pos n) h = omega arith
widen w16 (negsuc n) h = omega arith
widen w32 (pos n) h = omega arith
widen w32 (negsuc n) h = omega arith
widen w64 v h = h

pub widen_unsigned :
    (w : Width) (x : ℕ) → x < 2 ^ bits w → (x < 2 ^ 64) × (to_unsigned (bits w) x ≡ x)
widen_unsigned w8 x h = omega arith
widen_unsigned w16 x h = omega arith
widen_unsigned w32 x h = omega arith
widen_unsigned w64 x h = omega arith

pub decode_primitive-Decodes :
    (k : Kind) (v : KindVal k) → FitsKind k v → Decodes (decode_primitive k) (wire_kind k) v
unfolding decode_primitive wire_kind
decode_primitive-Decodes string v h k front rest =
    rw (read_string_lem, append_assoc, read_slice-holding k v front rest h, append_assoc)
decode_primitive-Decodes bool v h k front rest = read_bool-holding k v front rest
decode_primitive-Decodes (int w) v h k front rest =
    rw (read_varint-holding k v front rest (widen w v h), to_signed_self w v h)
decode_primitive-Decodes (uint w) v h k front rest =
    let wide = widen_unsigned w v h in rw (read_uvarint-holding k v front rest wide.0, wide.1)
decode_primitive-Decodes float32 v h k front rest =
    rw ((read_float_lem _).0) (read_fixed-holding k 4 v front rest (omega arith) h)
decode_primitive-Decodes float64 v h k front rest =
    rw ((read_float_lem _).1) (read_fixed-holding k 8 v front rest (omega arith) h)
decode_primitive-Decodes complex64 (re, im) h k front rest =
    read_complex64-holding k re im front rest h.0 h.1
decode_primitive-Decodes complex128 (re, im) h k front rest =
    read_complex128-holding k re im front rest h.0 h.1

-- A primitive takes a byte at least, as `wireMinBytes` says.
pub length-wire_kind : (k : Kind) (v : KindVal k) → 1 ≤ length (wire_kind k v)
unfolding wire_kind bool_byte
length-wire_kind string v = rw length-append (omega (arith, length-uvarint_bytes (length v)))
length-wire_kind bool true = omega arith
length-wire_kind bool false = omega arith
length-wire_kind (int w) v = rw (varint_bytes-eq-uvarint_bytes v) (length-uvarint_bytes _).0
length-wire_kind (uint w) v = (length-uvarint_bytes v).0
length-wire_kind float32 v = rw length-little_endian (omega arith)
length-wire_kind float64 v = rw length-little_endian (omega arith)
length-wire_kind complex64 (re, im) = rw (length-append, length-little_endian) (omega arith)
length-wire_kind complex128 (re, im) = rw (length-append, length-little_endian) (omega arith)

pub decode_primitive-Safe : (k : Kind) → Safe (decode_primitive k)
unfolding decode_primitive
decode_primitive-Safe string = read_string-Safe
decode_primitive-Safe bool = read_bool-Safe
decode_primitive-Safe (int w) = bind-Safe read_varint-Safe (λ v. pure-Safe _)
decode_primitive-Safe (uint w) = bind-Safe read_uvarint-Safe (λ v. pure-Safe _)
decode_primitive-Safe float32 = read_float-Safe.0
decode_primitive-Safe float64 = read_float-Safe.1
decode_primitive-Safe complex64 = read_complex-Safe.0
decode_primitive-Safe complex128 = read_complex-Safe.1
