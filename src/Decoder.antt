-- ===== src/Decoder.antt =====
-- decoder.go: the decoder over a reader in memory or a stream, and its Read methods. A float is the
-- pattern of its bits, a string its bytes.
pub mod Laws
pub mod Checks
pub mod Bounds
pub mod Safety
pub mod Windows
use binary.Prelude.{
  ℕ, zero, suc, ◌+◌, ◌-◌, ◌*◌, ◌/◌, ◌^◌, ltb, ◌==◌, ◌&&◌, ◌||◌, not, length, take, drop, replicate,
  ◌++◌, ◌-◌,
}
use binary.Prelude.{List, [], ◌∷◌, if◌then◌else◌, Bool, true, false, Option, none, some}
use binary.Prelude.Int.{ℤ, pos, negsuc}
use binary.Base.{
  Error, eof, unexpected_eof, Result, ok, err, panic, M, ◌>>=◌, ◌>>◌, next, pure, fail, check,
}
use binary.Reader
use binary.Reader.{SliceReader, new_slice_reader}
use binary.Stream
use binary.Stream.{StreamReader, max_int}

-- `memory` is a decoder whose field `slice` is set, `stream` one over a streamReader.
pub data Decoder : Type 0 where
  memory : SliceReader → Decoder
  stream : StreamReader → Decoder

-- What `newReader` tells apart: nothing or a nil pointer, a bytes.Buffer by its unread bytes, a
-- reader made here, and any other io.Reader.
pub data Input : Type 0 where
  nothing : Input
  bytes_buffer : List ℕ → Input
  slice_reader : SliceReader → Input
  io_reader : StreamReader → Input

unfoldable pub new_decoder : Input → Decoder
unfolding new_slice_reader
new_decoder nothing = memory (new_slice_reader [])
new_decoder (bytes_buffer b) = memory (new_slice_reader b)
new_decoder (slice_reader r) = memory r
new_decoder (io_reader r) = stream r

-- A call on the reader inside.
abbrev pub lift_memory {ℓ} : {A : Type ℓ} → Result A × SliceReader → Result A × Decoder
lift_memory (o, r) = (o, memory r)

abbrev pub lift_stream {ℓ} : {A : Type ℓ} → Result A × StreamReader → Result A × Decoder
lift_stream (o, r) = (o, stream r)

unfoldable pub read_uvarint : M Decoder ℕ
read_uvarint (memory r) = lift_memory (Reader.read_uvarint r)
read_uvarint (stream r) = lift_stream (Stream.read_uvarint r)

pub read_varint : M Decoder ℤ
read_varint (memory r) = lift_memory (Reader.read_varint r)
read_varint (stream r) = lift_stream (Stream.read_varint r)

pub read_byte : M Decoder ℕ
read_byte (memory r) = lift_memory (Reader.read_byte r)
read_byte (stream r) = lift_stream (Stream.read_byte r)

unfoldable pub slice : ℤ → M Decoder (List ℕ)
slice (negsuc n) d = (err unexpected_eof, d)
slice (pos n) (memory r) = lift_memory (Reader.slice (pos n) r)
slice (pos n) (stream r) = lift_stream (Stream.slice (pos n) r)

-- `LittleEndian.Uint16`, `Uint32` and `Uint64`.
pub from_little_endian : List ℕ → ℕ
from_little_endian [] = 0
from_little_endian (b ∷ bs) = b + 2 ^ 8 * from_little_endian bs

pub read_fixed : ℕ → M Decoder ℕ
unfolding from_little_endian
read_fixed n = do b ← slice (pos n); pure (from_little_endian b)

pub read_uint16 : M Decoder ℕ
unfolding read_fixed
read_uint16 = read_fixed 2

pub read_uint32 : M Decoder ℕ
unfolding read_fixed
read_uint32 = read_fixed 4

pub read_uint64 : M Decoder ℕ
unfolding read_fixed
read_uint64 = read_fixed 8

pub read_float32 : M Decoder ℕ
read_float32 = read_uint32

pub read_float64 : M Decoder ℕ
read_float64 = read_uint64

pub read_complex64 : M Decoder (ℕ × ℕ)
read_complex64 = do
  b ← slice (pos 8)
  pure (from_little_endian (take 4 b), from_little_endian (drop 4 b))

pub read_complex128 : M Decoder (ℕ × ℕ)
read_complex128 = do
  b ← slice (pos 16)
  pure (from_little_endian (take 8 b), from_little_endian (drop 8 b))

pub read_bool : M Decoder Bool
read_bool = do b ← read_byte; pure (b == 1)

-- The bytes that are left, or nothing for a stream (the -1 of `Available`).
pub available : Decoder → Option ℕ
available (memory r) = some (Reader.len r)
available (stream r) = none

unfoldable pub decode_length : ℕ → M Decoder ℕ
decode_length n = if ltb max_int n then fail unexpected_eof else pure n

-- `readSlice`.
unfoldable pub read_slice_of : ℕ → M Decoder (List ℕ)
unfolding decode_length
read_slice_of n = do l ← decode_length n; slice (pos l)

unfoldable pub read_slice : M Decoder (List ℕ)
read_slice = do l ← read_uvarint; read_slice_of l

-- `ReadString`, and `readString`, which gives back the old string where it equals the new one.
pub read_string : M Decoder (List ℕ)
read_string = read_slice

pub read_tagged : M Decoder (ℕ × List ℕ)
read_tagged = do tag ← read_uvarint; body ← read_slice; pure (tag, body)

short_of : ℕ → Option ℕ → Bool
short_of n none = false
short_of n (some left) = ltb left n

pub ensure_available : ℕ → M Decoder (Unit {0})
unfolding short_of
ensure_available n d = check (short_of n (available d)) eof d

few_for : ℕ → ℕ → Option ℕ → Bool
few_for n min none = false
few_for n min (some left) = ltb 0 min && ltb (left / min) n

pub ensure_elements : ℕ → ℕ → M Decoder (Unit {0})
unfolding few_for
ensure_elements n min d = check (few_for n min (available d)) eof d

-- `validateSliceLength` for elements of `size` bytes, and the limit of the Go runtime on one
-- allocation (2^48 bytes on a 64-bit machine), past which `reflect.MakeSlice` panics and
-- `makeSliceChecked` recovers.
abbrev pub max_alloc : ℕ
max_alloc = 2 ^ 48

pub valid_length : ℕ → ℕ → Bool
valid_length size n = not (ltb (max_int / 2) n || (not (size == 0) && ltb (max_int / size) n))

-- `makeSliceChecked`; the new slice has `n` zero elements.
pub make_slice : ℕ → ℕ → M Decoder (Unit {0})
unfolding valid_length
make_slice size n = check (not (valid_length size n) || ltb max_alloc (n * size)) unexpected_eof

-- `resizeSliceChecked` on a nil slice, whose capacity is 0.
pub resize_slice : ℕ → ℕ → M Decoder (Unit {0})
unfolding make_slice
resize_slice size n = if n == 0 then pure tt else make_slice size n

-- `Read` into `n` zero bytes, in memory: bytes that are not there stay zero. The codecs call it
-- only there; a stream's one `Read` is taken to deliver what it has.
unfoldable pub read_some : ℕ → Decoder → Result (List ℕ) × Decoder
read_some n (memory r) = lift_memory (Reader.read n r)
read_some n (stream r) = (ok (take n r.bytes), stream (record r { bytes = drop n r.bytes }))

pub read_into : ℕ → M Decoder (List ℕ)
unfolding read_some
read_into n = do got ← read_some n; pure (got ++ replicate (n - length got) 0)

-- `if d.Available() < 0 { … }`: the first call for a stream, the second in memory.
abbrev pub by_source {ℓ} : {A : Type ℓ} → M Decoder A → M Decoder A → M Decoder A
by_source from_stream in_memory (stream r) = from_stream (stream r)
by_source from_stream in_memory (memory r) = in_memory (memory r)

-- `ReadUvarint` and `decodeLength`, with which every codec of a variable length begins.
pub read_count : M Decoder ℕ
read_count = do l ← read_uvarint; decode_length l
