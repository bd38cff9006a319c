-- ===== src/Reader.antt =====
-- reader.go: the reader over a byte slice.
pub mod View
pub mod Uvarint
pub mod Safety
pub mod Bulk
use binary.Prelude.{ℕ, zero, suc, ◌+◌, ◌-◌, ◌*◌, ◌^◌, bit_and, bit_or, leb, ltb, ◌==◌, ◌&&◌}
use binary.Prelude.{List, [], ◌∷◌, if◌then◌else◌, Bool, true, false, length, get_elem?, take, drop}
use binary.Prelude.{Option, none, some}
use binary.Prelude.Int.{ℤ, pos, negsuc}
use binary.Base.{
  Error, eof, overflow, Result, ok, err, panic, M, ◌>>=◌, ◌>>◌, next, pure, fail, check, u64,
}
use binary.Varint.{decode_varint}

pub record SliceReader : Type 0 where
  pub buffer : List ℕ
  pub offset : ℕ

unfoldable pub new_slice_reader : List ℕ → SliceReader
new_slice_reader b = record { buffer = b; offset = 0 }

-- `Len` returns the unread bytes, and 0 past the end; `-` stops there.
unfoldable pub len : SliceReader → ℕ
len r = length r.buffer - r.offset

-- `r.buffer[i]`, which panics out of range.
abbrev pub index : List ℕ → ℕ → Result ℕ
index b i = elim (get_elem? b i) [ none ↦ panic | some x ↦ ok x ]

-- `b := r.buffer[r.offset]; r.offset++`
abbrev pub bump : M SliceReader ℕ
bump r = next (index r.buffer r.offset, r) λ b r'. (ok b, record r' { offset = r'.offset + 1 })

pub read_byte : M SliceReader ℕ
read_byte r = if leb (length r.buffer) r.offset then (err eof, r) else bump r

-- `r.buffer[cur:r.offset]` after `r.offset += n`. A slice past the end is a panic.
abbrev pub cut : List ℕ → ℕ → ℕ → Result (List ℕ)
cut b from n = if ltb (length b) (from + n) then panic else ok (take n (drop from b))

-- `Slice`. The test `n > len(r.buffer)-r.offset` is one of signed integers.
unfoldable pub slice : ℤ → M SliceReader (List ℕ)
slice (negsuc n) r = (err eof, r)
slice (pos n) r =
    if ltb (length r.buffer) (r.offset + n)
    then (err eof, r)
    else (cut r.buffer r.offset n, record r { offset = r.offset + n })

-- `Read` into a slice of length `n`: it copies what there is, at most `n` bytes.
pub read : ℕ → M SliceReader (List ℕ)
read n r =
    if leb (length r.buffer) r.offset
    then (err eof, r)
    else let got = take n (drop r.offset r.buffer) in
      (ok got, record r { offset = r.offset + length got })

-- The loop of `ReadUvarint`, with the rounds left until `shift` reaches 64.
unfoldable pub uvarint_loop : ℕ → ℕ → ℕ → M SliceReader ℕ
uvarint_loop zero shift value = fail overflow
uvarint_loop (suc rounds) shift value = λ r.
    if leb (length r.buffer) r.offset
    then (err eof, r)
    else next (bump r) λ b.
      let more =
        uvarint_loop rounds (shift + 7) (bit_or value (u64 (bit_and b 0x7f * 2 ^ shift))) in
      if ltb b 0x80
      then (if (shift == 63) && ltb 1 b
          then fail overflow
          else pure (bit_or value (u64 (b * 2 ^ shift))))
      else more

unfoldable pub read_uvarint : M SliceReader ℕ
unfolding uvarint_loop
read_uvarint = uvarint_loop 10 0 0

pub read_varint : M SliceReader ℤ
read_varint = do x ← read_uvarint; pure (decode_varint x)
