-- ===== src/Codec/Direct/Laws.antt =====
-- The fields of a struct at their offsets against the fields through their codecs.
use binary.Prelude.{ℕ, ◌≡◌, refl}
use binary.Prelude.{List, ◌++◌}
use binary.Base.{ok}
use binary.Decoder.Laws.{Origin, holding}
use binary.Codec.{
  w8, w16, w32, w64, string, bool, int, uint, float32, float64, complex64, complex128,
}
use binary.Codec.{
  Codec, Fields, primitive, byte_slice, varuint_slice, no_fields, field, skipped, Val, Vals,
}
use binary.Codec.{
  pointer, bool_slice, string_slice, fixed_slice, varint_slice, collection, slice_of_ptr, struct,
  map_of, string_map, uint64_map, union,
}
use binary.Codec.Primitive.{encode_primitive}
use binary.Codec.Bytes.{encode_bytes}
use binary.Codec.Tree.{encode, encode_fields, wire_fields}
use binary.Codec.Tree.Fits.{FitsFields, AreFields}
use binary.Codec.RoundTrip.{decode_direct_from-Decodes}
use binary.Codec.Direct.{write_direct, encode_direct, decode_direct}

write_direct-eq : (c : Codec) (v : Val c) → write_direct c v ≡ encode c v
unfolding write_direct encode encode_primitive encode_bytes
write_direct-eq (primitive string) v = refl
write_direct-eq (primitive bool) v = refl
write_direct-eq (primitive (int w)) v = refl
write_direct-eq (primitive (uint w)) v = refl
write_direct-eq (primitive complex64) (re, im) = refl
write_direct-eq (primitive complex128) (re, im) = refl
write_direct-eq (primitive float32) v = refl
write_direct-eq (primitive float64) v = refl
write_direct-eq byte_slice v = refl
write_direct-eq (varuint_slice w8) v = refl
write_direct-eq (varuint_slice w16) v = refl
write_direct-eq (varuint_slice w32) v = refl
write_direct-eq (varuint_slice w64) v = refl
write_direct-eq (pointer c) v = refl
write_direct-eq bool_slice v = refl
write_direct-eq (string_slice sh) v = refl
write_direct-eq (fixed_slice sh f) v = refl
write_direct-eq (varint_slice w) v = refl
write_direct-eq (collection sh c) v = refl
write_direct-eq (slice_of_ptr c) v = refl
write_direct-eq (struct fs) v = refl
write_direct-eq (map_of k c) v = refl
write_direct-eq (string_map p) v = refl
write_direct-eq uint64_map v = refl
write_direct-eq (union arms) v = refl

-- Where no field has a float32 or complex64 type with a name of its own, which only the codec converts to a
-- float64 and back, EncodeTo at the offsets and through the codecs of the fields do the same.
encode_direct-encode_fields : (fs : Fields) (v : Vals fs) → encode_direct fs v ≡ encode_fields fs v
unfolding encode_direct encode
encode_direct-encode_fields no_fields v = refl
encode_direct-encode_fields (field c fs) (v, vs) =
    rw (write_direct-eq c v, encode_direct-encode_fields fs vs)
encode_direct-encode_fields (skipped fs) vs = encode_direct-encode_fields fs vs

-- DecodeTo of a struct at the offsets of its fields reads the fields that were written back, in memory
-- and from a stream, and stops right behind them, whatever strings, bytes and integers the fields of the
-- target hold in memory that is used again.
pub decode_direct-Decodes :
    (old : ℕ → List ℕ) (fs : Fields) (v : Vals fs)
    → AreFields fs
    → FitsFields fs v
    → (k : Origin) (front rest : List ℕ)
    → decode_direct old fs (holding k front (wire_fields fs v ++ rest))
      ≡ (ok v, holding k (front ++ wire_fields fs v) rest)
unfolding decode_direct
decode_direct-Decodes old fs v w h k front rest =
    decode_direct_from-Decodes old 0 fs v w h k front rest
