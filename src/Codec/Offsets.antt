-- ===== src/Codec/Offsets.antt =====
-- `reflectStructCodec.DecodeTo` of one field at its offset: how a field of a kind that is marked is read.
-- The target's field may hold memory already, of a slice or a string, which is used again.
pub mod Laws
pub mod Safety
use binary.Prelude.{ℕ, ◌/◌, ◌&&◌, ◌==◌, leb, length, take, drop, replicate, if◌then◌else◌}
use binary.Prelude.{List, [], ◌++◌}
use binary.Base.{M, ◌>>=◌, ◌>>◌, pure}
use binary.Stream.{read_full}
use binary.Decoder.{
  Decoder, memory, stream, lift_stream, read_some, by_source, read_count, ensure_available,
  resize_slice,
}
use binary.Decoder.{
  read_slice, read_bool, read_varint, read_uvarint, read_float32, read_float64, read_complex64,
  read_complex128,
}
use binary.Reader.Bulk.{to_signed, to_unsigned}
use binary.Codec.{
  Width, w8, w16, w32, w64, bits, string, bool, int, uint, float32, float64, complex64, complex128,
}
use binary.Codec.{Codec, primitive, byte_slice, varuint_slice, Val}
use binary.Codec.Key.{same_bytes}
use binary.Codec.Varints.{decode_unsigned}

-- `readString`: a string that is the same is not copied.
pub read_string_over : List ℕ → M Decoder (List ℕ)
read_string_over old = do
  b ← read_slice
  pure (if length old == length b && same_bytes old b then old else b)

-- A slice is grown where its capacity does not do.
unfoldable pub room_in : ℕ → ℕ → ℕ → M Decoder (Unit {0})
room_in capacity size n =
    if leb n capacity then pure tt else (do ensure_available n; resize_slice size n)

-- `d.Read(buffer)` in memory and `io.ReadFull(d, buffer)` from a stream.
unfoldable pub read_over : List ℕ → M Decoder (List ℕ)
read_over buffer = do got ← read_some (length buffer); pure (got ++ drop (length got) buffer)

pub read_all : ℕ → M Decoder (List ℕ)
read_all n (memory r) = read_some n (memory r)
read_all n (stream r) = lift_stream (read_full n r)

-- The bytes into the target's slice, of which `n` elements are taken, or into a new one.
unfoldable pub fill_bytes : List ℕ → ℕ → M Decoder (List ℕ)
unfolding read_over read_all
fill_bytes old n =
    let buffer = if leb n (length old) then take n old else replicate n 0 in
    if n == 0 then pure [] else by_source (read_all n) (read_over buffer)

-- The case of a slice of bytes, with what the target's slice holds up to its capacity.
unfoldable pub read_bytes_over : List ℕ → M Decoder (List ℕ)
unfolding room_in fill_bytes
read_bytes_over old = do n ← read_count; room_in (length old) 1 n; fill_bytes old n

-- The case of a slice of unsigned integers, with the capacity of the target's slice.
pub read_varuints_over : ℕ → Width → M Decoder (List ℕ)
unfolding room_in
read_varuints_over capacity w = do
  n ← read_count
  room_in capacity (bits w / 8) n
  decode_unsigned w n

-- The cases of the switch in `DecodeTo`, with `field.Codec.DecodeTo` for the fields of no marked kind.
pub read_direct : List ℕ → (c : Codec) → M Decoder (Val c) → M Decoder (Val c)
unfolding read_string_over read_bytes_over read_varuints_over
read_direct old (primitive string) through = read_string_over old
read_direct old (primitive bool) through = read_bool
read_direct old (primitive (int w)) through = do v ← read_varint; pure (to_signed (bits w) v)
read_direct old (primitive (uint w)) through = do v ← read_uvarint; pure (to_unsigned (bits w) v)
read_direct old (primitive complex64) through = read_complex64
read_direct old (primitive complex128) through = read_complex128
read_direct old (primitive float32) through = read_float32
read_direct old (primitive float64) through = read_float64
read_direct old byte_slice through = read_bytes_over old
read_direct old (varuint_slice w16) through = read_varuints_over (length old) w16
read_direct old (varuint_slice w32) through = read_varuints_over (length old) w32
read_direct old (varuint_slice w64) through = read_varuints_over (length old) w64
read_direct old c through = through
