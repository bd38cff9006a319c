-- ===== src/Unsafe.antt =====
-- unsafe/types.go: `integerSliceCodec`, whose slices are written as their memory and read into a new one.
pub mod Laws
use binary.Prelude.{ℕ, ◌*◌, ◌/◌, ◌==◌, leb, ltb, if◌then◌else◌, length, List, []}
use binary.Base.{unexpected_eof, panic, Result, M, ◌>>=◌, ◌>>◌, pure, check, next}
use binary.Stream
use binary.Stream.{max_int}
use binary.Encoder.{Encoder, write, write_uint64}
use binary.Decoder.{
  Decoder, memory, stream, lift_memory, lift_stream, read_uint64, decode_length, max_alloc,
}
use binary.Codec.Loops.{emit}
use binary.Codec.Custom.{read_whole}
use binary.Memory.{Layout, memory_of, elements_of}

-- `reflect.MakeSlice`, which panics past the limit on one allocation; nothing recovers here.
make_elements : ℕ → M Decoder (Unit {0})
make_elements size d = if ltb max_alloc size then (panic, d) else pure tt d

-- `io.ReadFull`.
read_elements : ℕ → M Decoder (List ℕ)
read_elements n (memory r) = read_whole n (memory r)
read_elements n (stream r) = lift_stream (Stream.read_full n r)

module _ (layout : Layout) where
  -- The number of elements in 8 bytes, and the memory.
  pub encode_elements : List ℕ → M Encoder (Unit {0})
  encode_elements v = do emit (write_uint64 (length v)); emit (write (memory_of layout v))

  counted_body : ℕ → M Decoder (List ℕ)
  unfolding make_elements read_elements
  counted_body l = do
    n ← decode_length l
    check (ltb (max_int / layout.size) n) unexpected_eof
    make_elements (n * layout.size)
    b ← read_elements (n * layout.size)
    pure (elements_of layout n b)

  pub decode_elements : M Decoder (List ℕ)
  unfolding counted_body
  decode_elements = do l ← read_uint64; if l == 0 then pure [] else counted_body l
