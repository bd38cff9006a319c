-- ===== src/Nocopy/Views.antt =====
-- nocopy/types.go: `byteSliceCodec.DecodeTo` in memory with the slice that it sets, which is a header over
-- the decoder's own buffer: where it begins, its length and its capacity.
pub mod Laws
pub mod Values
use binary.Prelude.{
  ℕ, zero, suc, ◌+◌, ◌-◌, ◌==◌, ltb, length, take, drop, if◌then◌else◌, List, [], ◌∷◌, Option, none,
  some,
}
use binary.Base.{M, ◌>>=◌, ◌>>◌, pure, check, eof, err, ok, unexpected_eof, next}
use binary.Stream.{max_int}
use binary.Reader.{SliceReader, read_uvarint}

-- `sliceHeader`, with the data pointer as a place of the buffer.
pub record View : Type 0 where
  pub start : ℕ
  pub size : ℕ
  pub capacity : ℕ

-- `Slice` of sliceReader: `r.buffer[cur:r.offset]` has room to the end of the buffer.
unfoldable pub reader_view : ℕ → M SliceReader View
reader_view n r = if ltb (length r.buffer) (r.offset + n) then (err eof, r) else (
  ok (record { start = r.offset; size = n; capacity = length r.buffer - r.offset }),
  record r { offset = r.offset + n },
)

-- `setSlice` of the data and the length, and `SetZero`.
unfoldable pub set_slice : View → Option View
set_slice b =
    if b.size == 0
    then none
    else some (record { start = b.start; size = b.size; capacity = b.size })

unfoldable pub decode_view : M SliceReader (Option View)
unfolding reader_view set_slice
decode_view = do
  l ← read_uvarint
  check (ltb max_int l) unexpected_eof
  b ← reader_view l
  pure (set_slice b)

-- The elements of a slice of bytes over a buffer.
pub elements : List ℕ → Option View → List ℕ
elements buffer none = []
elements buffer (some v) = take v.size (drop v.start buffer)

abbrev pub put_byte : ℕ → ℕ → List ℕ → List ℕ
put_byte i x [] = []
put_byte zero x (y ∷ ys) = x ∷ ys
put_byte (suc i) x (y ∷ ys) = y ∷ put_byte i x ys

-- What is in the buffer after `v[i] = x`, with `v` extended to its capacity, and after `append(v, x)`.
pub store : View → ℕ → ℕ → List ℕ → List ℕ
store v i x buffer = if ltb i v.capacity then put_byte (v.start + i) x buffer else buffer

pub append_byte : View → ℕ → List ℕ → List ℕ
append_byte v x buffer =
    if ltb v.size v.capacity then put_byte (v.start + v.size) x buffer else buffer
