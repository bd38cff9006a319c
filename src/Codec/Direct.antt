-- ===== src/Codec/Direct.antt =====
-- `reflectStructCodec` on a struct that has an address and a field of a primitive kind: fields of the
-- kinds that are marked are read and written at their offsets, and all others through their codecs.
-- The target's field at a place may hold memory already, of a slice or a string, which is used again.
pub mod Laws
pub mod Stale
use binary.Prelude.{
  ℕ, zero, suc, ◌/◌, ◌||◌, ◌&&◌, ◌==◌, leb, length, take, drop, replicate, if◌then◌else◌, Bool,
  true, false,
}
use binary.Prelude.{List, [], ◌∷◌, ◌++◌}
use binary.Base.{M, ◌>>=◌, ◌>>◌, pure}
use binary.Stream.{read_full}
use binary.Encoder.{
  Encoder, write, write_uvarint, write_varint, write_string, write_bool, write_float32,
  write_float64, write_complex64, write_complex128,
}
use binary.Decoder.{
  Decoder, memory, stream, lift_stream, read_some, by_source, read_count, ensure_available,
  resize_slice,
}
use binary.Decoder.{
  read_slice, read_bool, read_varint, read_uvarint, read_float32, read_float64, read_complex64,
  read_complex128,
}
use binary.Reader.Bulk.{to_signed, to_unsigned}
use binary.Codec.{
  Width, w8, w16, w32, w64, bits, string, bool, int, uint, float32, float64, complex64, complex128,
}
use binary.Codec.{
  Codec, Fields, primitive, byte_slice, varuint_slice, no_fields, field, skipped, Val, Vals,
}
use binary.Codec.Loops.{emit}
use binary.Codec.Key.{same_bytes}
use binary.Codec.Varints.{encode_varuints, decode_unsigned}
use binary.Codec.Tree.{encode, decode_direct_from}

-- The cases of the switch in `EncodeTo`.
write_direct : (c : Codec) → Val c → M Encoder (Unit {0})
write_direct (primitive string) v = emit (write_string v)
write_direct (primitive bool) v = emit (write_bool v)
write_direct (primitive (int w)) v = emit (write_varint v)
write_direct (primitive (uint w)) v = emit (write_uvarint v)
write_direct (primitive complex64) (re, im) = emit (write_complex64 re im)
write_direct (primitive complex128) (re, im) = emit (write_complex128 re im)
write_direct (primitive float32) v = emit (write_float32 v)
write_direct (primitive float64) v = emit (write_float64 v)
write_direct byte_slice b = do emit (write_uvarint (length b)); emit (write b)
write_direct (varuint_slice w16) v = encode_varuints w16 v
write_direct (varuint_slice w32) v = encode_varuints w32 v
write_direct (varuint_slice w64) v = encode_varuints w64 v
write_direct c v = encode c v

pub encode_direct : (fs : Fields) → Vals fs → M Encoder (Unit {0})
unfolding write_direct
encode_direct no_fields v = pure tt
encode_direct (field c fs) (v, vs) = do write_direct c v; encode_direct fs vs
encode_direct (skipped fs) vs = encode_direct fs vs

-- DecodeTo into a target whose field at each place holds the memory given for it.
pub decode_direct : (ℕ → List ℕ) → (fs : Fields) → M Decoder (Vals fs)
decode_direct old fs = decode_direct_from old 0 fs
