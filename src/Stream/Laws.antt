-- ===== src/Stream/Laws.antt =====
-- reader.go: streamReader on bytes that the encoder wrote.
use binary.Prelude.{ℕ, suc, ◌+◌, ◌*◌, ◌/◌, ◌^◌, ◌≤◌, ◌<◌, ◌≡◌, refl, arith}
use binary.Prelude.{
  List, [], ◌∷◌, ◌++◌, bit_or, bit_and, length, take-append, drop-append, length-append,
}
use binary.Prelude.Bits.{bit_and_one}
use binary.Prelude.Int.{ℤ, pos, negsuc, InRange}
use binary.Base.{Error, ok, IsU64, u64}
use binary.Varint.{uvarint_bytes, varint_bytes, fold_sign}
use binary.Varint.Shape.{varint_bytes-eq-uvarint_bytes}
use binary.Varint.Zigzag.{fold_sign-IsU64, fold_sign-eq-zigzag}
use binary.Varint.Loop.{last_bit, VarintLoop, loop-uvarint_bytes}
use binary.Stream.{
  StreamReader, read_byte, read_full, read_limited, slice, max_int, uvarint_loop, read_uvarint,
}
use binary.Stream.{std_unfold, read_varint}

-- The stream that has `rest` to come. What was read does not show.
abbrev pub source : Error → List ℕ → List ℕ → StreamReader
source failure front rest = record { bytes = rest; failure = failure }

stream_last :
    (failure : Error) (k shift value b : ℕ) (front rest : List ℕ)
    → shift + 7 * k ≡ 63
    → b < 128
    → b * 2 ^ shift < 2 ^ 64
    → uvarint_loop (suc k) shift value (source failure front (b ∷ rest))
      ≡ (ok (bit_or value (u64 (b * 2 ^ shift))), source failure (front ++ (b ∷ [])) rest)
unfolding uvarint_loop
stream_last failure k shift value b front rest d small fits = ground (arith, last_bit b k shift)

stream_inner :
    (failure : Error) (k shift value b : ℕ) (front rest : List ℕ)
    → 128 ≤ b
    → uvarint_loop (suc k) shift value (source failure front (b ∷ rest))
      ≡ uvarint_loop k
          (shift + 7)
          (bit_or value (u64 (bit_and b 0x7f * 2 ^ shift)))
          (source failure (front ++ (b ∷ [])) rest)
unfolding uvarint_loop
stream_inner failure k shift value b front rest large = ground arith

abbrev stream_loop : Error → VarintLoop StreamReader
stream_loop failure = record {
  loop = uvarint_loop;
  holding = source failure;
  last = stream_last failure;
  inner = stream_inner failure;
}

pub read_uvarint-source :
    (failure : Error) (x : ℕ) (front rest : List ℕ)
    → IsU64 x
    → read_uvarint (source failure front (uvarint_bytes x ++ rest))
      ≡ (ok x, source failure (front ++ uvarint_bytes x) rest)
unfolding read_uvarint
read_uvarint-source failure = loop-uvarint_bytes (stream_loop failure)

-- The standard library's unfolding of the sign, on what the package's own fold gives.
std_unfold-fold_sign : (v : ℤ) → InRange 64 v → std_unfold (fold_sign v) ≡ v
unfolding std_unfold
std_unfold-fold_sign (pos n) h =
    rw (fold_sign-eq-zigzag (pos n) h) (ground (arith, bit_and_one (2 * n)))
std_unfold-fold_sign (negsuc n) h =
    rw (fold_sign-eq-zigzag (negsuc n) h) (ground (arith, bit_and_one (2 * n + 1)))

pub read_varint-source :
    (failure : Error) (v : ℤ) (front rest : List ℕ)
    → InRange 64 v
    → read_varint (source failure front (varint_bytes v ++ rest))
      ≡ (ok v, source failure (front ++ varint_bytes v) rest)
unfolding read_varint
read_varint-source failure v front rest h =
    let back = read_uvarint-source failure (fold_sign v) front rest (fold_sign-IsU64 v h) in
    rw (varint_bytes-eq-uvarint_bytes v) (rw (back, std_unfold-fold_sign v h))

-- A slice of any length that Go can hold is read whole, by either of the two ways.
pub slice-source :
    (failure : Error) (front bytes rest : List ℕ)
    → length bytes ≤ max_int / 2
    → slice (pos (length bytes)) (source failure front (bytes ++ rest))
      ≡ (ok bytes, source failure (front ++ bytes) rest)
unfolding slice read_limited read_full
slice-source failure front bytes rest h =
    ground (arith, length-append bytes rest, take-append bytes rest, drop-append bytes rest)

pub read_full-source :
    (failure : Error) (front bytes rest : List ℕ)
    → read_full (length bytes) (source failure front (bytes ++ rest))
      ≡ (ok bytes, source failure (front ++ bytes) rest)
unfolding read_full
read_full-source failure front bytes rest =
    ground (arith, length-append bytes rest, take-append bytes rest, drop-append bytes rest)

pub read_byte-source :
    (failure : Error) (b : ℕ) (front rest : List ℕ)
    → read_byte (source failure front (b ∷ rest)) ≡ (ok b, source failure (front ++ (b ∷ [])) rest)
unfolding read_byte
read_byte-source failure b front rest = refl
