-- ===== src/Codec/Varints.antt =====
-- `varSliceCodec`: a slice of integers as a count and that many varints.
pub mod Safety
pub mod Laws
use binary.Prelude.{ℕ, ◌*◌, ◌/◌, ◌^◌, ◌≤◌, ◌<◌, ◌≡◌, refl, arith, length, All}
use binary.Prelude.{List, [], ◌∷◌, ◌++◌, append_assoc, length-append}
use binary.Prelude.Int.{ℤ, InRange}
use binary.Base.{ok, M, ◌>>=◌, ◌>>◌, pure, wire_each}
use binary.Varint.{uvarint_bytes, varint_bytes, fold_sign}
use binary.Varint.Shape.{length-uvarint_bytes, varint_bytes-eq-uvarint_bytes}
use binary.Varint.Zigzag.{fold_sign-IsU64, decode_varint-fold_sign}
use binary.Encoder.{Encoder, write_uvarint, write_varint}
use binary.Encoder.Laws.{write-write, write_uvarint_lem, write_varint_lem}
use binary.Reader.Bulk.{read_varints, to_signed, to_unsigned, varint_value}
use binary.Reader.Bulk.Laws.{read_varints-at}
use binary.Decoder.{
  Decoder, memory, stream, read_uvarint, read_varint, read_count, ensure_available,
}
use binary.Decoder.{resize_slice, max_alloc, lift_memory}
use binary.Decoder.Laws.{
  Origin, in_memory, streaming, holding, read_uvarint-holding, read_varint-holding,
}
use binary.Decoder.Checks.{read_count-holding, ensure_available-holding, resize_slice_fits}
use binary.Codec.{Width, w8, w16, w32, w64, bits}
use binary.Codec.Loops.{emit, Encodes, Decodes, decode_each, decode_each-Decodes}
use binary.Codec.Loops.{bulk_or_each, bulk_or_each-Encodes, All-of, All-map}
use binary.Codec.Primitive.{to_signed_self, widen, widen_unsigned}

-- `encodeVarints`. `binary.AppendVarint` of the standard library appends what `WriteVarint` writes.
pub encode_varints : List ℤ → M Encoder (Unit {0})
encode_varints v = do
  emit (write_uvarint (length v))
  bulk_or_each (λ x. emit (write_varint x)) varint_bytes v

-- `encodeVaruints`, which has no case for elements of one byte: those have a codec of their own.
pub encode_varuints : Width → List ℕ → M Encoder (Unit {0})
encode_varuints w8 v = emit (write_uvarint (length v))
encode_varuints w v = do
  emit (write_uvarint (length v))
  bulk_or_each (λ x. emit (write_uvarint x)) uvarint_bytes v

-- `decodeVarints` and `decodeVaruints` into `n` elements: `readVarints` in memory, the plain loop
-- from a stream.
pub decode_signed : Width → ℕ → M Decoder (List ℤ)
decode_signed w n (memory r) = lift_memory (read_varints (varint_value (bits w)) n r)
decode_signed w n (stream r) =
    decode_each (do v ← read_varint; pure (to_signed (bits w) v)) n (stream r)

pub decode_unsigned : Width → ℕ → M Decoder (List ℕ)
decode_unsigned w n (memory r) = lift_memory (read_varints (to_unsigned (bits w)) n r)
decode_unsigned w n (stream r) =
    decode_each (do v ← read_uvarint; pure (to_unsigned (bits w) v)) n (stream r)

-- The count of `varSliceCodec.DecodeTo`, and its checks.
unfoldable pub count_of : Width → M Decoder ℕ
count_of w = do n ← read_count; ensure_available n; resize_slice (bits w / 8) n; pure n

unfoldable pub decode_varints : Width → M Decoder (List ℤ)
unfolding count_of decode_signed
decode_varints w = do n ← count_of w; decode_signed w n

unfoldable pub decode_varuints : Width → M Decoder (List ℕ)
unfolding count_of decode_unsigned
decode_varuints w = do n ← count_of w; decode_unsigned w n

pub wire_varints : List ℤ → List ℕ
wire_varints v = uvarint_bytes (length v) ++ wire_each varint_bytes v

unfoldable pub wire_varuints : List ℕ → List ℕ
wire_varuints v = uvarint_bytes (length v) ++ wire_each uvarint_bytes v

-- A slice of integers that can be in memory, 8 bytes an element at most.
abbrev pub FitsSigned : Width → List ℤ → Type 0
FitsSigned w v = All (InRange (bits w)) v × (length v * 8 ≤ max_alloc)

abbrev pub FitsUnsigned : Width → List ℕ → Type 0
FitsUnsigned w v = All (λ x. x < 2 ^ bits w) v × (length v * 8 ≤ max_alloc)

abbrev pub IsWide : Width → Type 0
IsWide w8 = ⊥
IsWide w = Unit {0}
