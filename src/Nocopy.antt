-- ===== src/Nocopy.antt =====
-- nocopy/types.go: slices, byte slices, strings and Booleans that are decoded as a part of the decoder's
-- buffer, without a copy. A nil slice and an empty one are the same.
pub mod Laws
pub mod Windows
pub mod Copies
pub mod Safety
pub mod Views
pub mod Maps
use binary.Prelude.{ℕ, ◌*◌, ◌/◌, ◌%◌, ◌==◌, ltb, not, if◌then◌else◌, length, List, [], map, Bool}
use binary.Prelude.Int.{pos}
use binary.Base.{unexpected_eof, M, ◌>>=◌, ◌>>◌, pure, check, next}
use binary.Encoder.{Encoder, write, write_uvarint, write_uint64}
use binary.Decoder.{Decoder, read_uvarint, read_uint64, read_slice, decode_length, slice}
use binary.Codec.Loops.{emit}
use binary.Codec.Bytes.{bool_of, byte_of_bool}
use binary.Memory.{Layout, memory_of, elements_of}

-- `integerSliceCodec`, for integers and floats: the number of bytes in 8 bytes, and the memory.
module _ (layout : Layout) where
  pub encode_integers : List ℕ → M Encoder (Unit {0})
  encode_integers v = do
    emit (write_uint64 (length v * layout.size))
    emit (write (memory_of layout v))

  -- The part of the buffer that holds the elements.
  integers_body : ℕ → M Decoder (List ℕ)
  integers_body l = do
    n ← decode_length l
    check (not (n % layout.size == 0)) unexpected_eof
    b ← slice (pos n)
    pure (elements_of layout (n / layout.size) b)

  pub decode_integers : M Decoder (List ℕ)
  unfolding integers_body
  decode_integers = do l ← read_uint64; if l == 0 then pure [] else integers_body l

-- `byteSliceCodec`
pub encode_bytes : List ℕ → M Encoder (Unit {0})
encode_bytes b = do emit (write_uvarint (length b)); emit (write b)

pub decode_bytes : M Decoder (List ℕ)
decode_bytes = do b ← read_slice; if length b == 0 then pure [] else pure b

-- `stringCodec`
encode_string : List ℕ → M Encoder (Unit {0})
encode_string v = do emit (write_uvarint (length v)); emit (write v)

pub decode_string : M Decoder (List ℕ)
decode_string = read_slice

-- `boolSliceCodec`
pub encode_bools : List Bool → M Encoder (Unit {0})
encode_bools v = do
  emit (write_uvarint (length v))
  if ltb 0 (length v) then emit (write (map byte_of_bool v)) else pure tt

bools_body : ℕ → M Decoder (List ℕ)
bools_body l = do n ← decode_length l; slice (pos n)

pub decode_bools : M Decoder (List Bool)
unfolding bools_body
decode_bools = do
  l ← read_uvarint
  if l == 0 then pure [] else (do b ← bools_body l; pure (map bool_of b))
