-- ===== src/Stream.antt =====
-- reader.go: the reader over an io.Reader. The reader below it, bufio or the caller's own, is the
-- bytes that it still delivers and the error that it reports after them.
pub mod Laws
pub mod Safety
use binary.Prelude.{
  ℕ, zero, suc, ◌+◌, ◌-◌, ◌*◌, ◌/◌, ◌%◌, ◌^◌, bit_and, bit_or, leb, ltb, ◌==◌, ◌&&◌,
}
use binary.Prelude.{List, [], ◌∷◌, if◌then◌else◌, length, take, drop}
use binary.Prelude.Int.{ℤ, pos, negsuc, signed}
use binary.Base.{Error, eof, unexpected_eof, overflow, ok, err, M, ◌>>=◌, pure, u64}

pub record StreamReader : Type 0 where
  pub bytes : List ℕ
  pub failure : Error

-- `ReadByte` of the reader below.
byte_of : StreamReader → List ℕ → M StreamReader ℕ
byte_of r [] s = (err r.failure, s)
byte_of r (b ∷ rest) s = (ok b, record s { bytes = rest })

pub read_byte : M StreamReader ℕ
unfolding byte_of
read_byte r = byte_of r r.bytes r

-- `io.EOF` inside something that has begun is `io.ErrUnexpectedEOF`.
cut_short : Error → Error
cut_short eof = unexpected_eof
cut_short e = e

-- `io.ReadFull` into `n` bytes.
pub read_full : ℕ → M StreamReader (List ℕ)
unfolding cut_short
read_full n r =
    if leb n (length r.bytes)
    then (ok (take n r.bytes), record r { bytes = drop n r.bytes })
    else if length r.bytes == 0
    then (err r.failure, r)
    else (err (cut_short r.failure), record r { bytes = [] })

-- `ReadFrom` of a `LimitReader`, and the check of the length: a clean end that comes early is
-- `io.EOF` here.
pub read_limited : ℕ → M StreamReader (List ℕ)
read_limited n r =
    if leb n (length r.bytes)
    then (ok (take n r.bytes), record r { bytes = drop n r.bytes })
    else (err r.failure, record r { bytes = [] })

abbrev pub max_int : ℕ
max_int = 2 ^ 63 - 1

pub slice : ℤ → M StreamReader (List ℕ)
slice (negsuc n) r = (err unexpected_eof, r)
slice (pos n) r =
    if ltb (max_int / 2) n
    then (err unexpected_eof, r)
    else if ltb (64 * 2 ^ 10) n
    then read_limited n r
    else read_full n r

-- `encoding/binary.ReadUvarint`, with `i` rounds done and the rest to go.
after_byte : ℕ → ℕ → ℕ → (M StreamReader ℕ) → ℕ → M StreamReader ℕ
after_byte i shift value more b =
    if ltb b 0x80
    then (if (i == 9) && ltb 1 b
        then (λ r. (err overflow, r))
        else pure (bit_or value (u64 (b * 2 ^ shift))))
    else more

round_of : ℕ → ℕ → ℕ → (ℕ → M StreamReader ℕ) → List ℕ → M StreamReader ℕ
unfolding after_byte cut_short
round_of i shift value more [] r = (err (if ltb 0 i then cut_short r.failure else r.failure), r)
round_of i shift value more (b ∷ rest) r =
    after_byte i shift value (more b) b (record r { bytes = rest })

pub uvarint_loop : ℕ → ℕ → ℕ → M StreamReader ℕ
unfolding round_of
uvarint_loop zero shift value r = (err overflow, r)
uvarint_loop (suc rounds) shift value r =
    let more = λ (b : ℕ).
      uvarint_loop rounds (shift + 7) (bit_or value (u64 (bit_and b 0x7f * 2 ^ shift))) in
    round_of (9 - rounds) shift value more r.bytes r

pub read_uvarint : M StreamReader ℕ
unfolding uvarint_loop
read_uvarint = uvarint_loop 10 0 0

-- `encoding/binary.ReadVarint`: `x := int64(ux >> 1); if ux&1 != 0 { x = ^x }`.
pub std_unfold : ℕ → ℤ
std_unfold ux = if bit_and ux 1 == 0 then signed 64 (ux / 2) else signed 64 (2 ^ 64 - 1 - ux / 2)

pub read_varint : M StreamReader ℤ
read_varint = do ux ← read_uvarint; pure (std_unfold ux)
