-- ===== src/Sorted/Scan.antt =====
-- The standard library's scan of a varint against what was appended.
use binary.Prelude.{ℕ, zero, suc, ◌+◌, ◌*◌, ◌^◌, ◌≤◌, ◌<◌, ◌≡◌, ◌≢◌, arith, bit_and, bit_or}
use binary.Prelude.{List, [], ◌∷◌, ◌++◌}
use binary.Base.{ok, panic, IsU64, u64}
use binary.Varint.{uvarint_bytes}
use binary.Varint.Loop.{last_bit, VarintLoop, loop-uvarint_bytes}
use binary.Sorted.{scan_uvarint, uvarint, count_varints}

scan_last :
    (k shift value b : ℕ) (front rest : List ℕ)
    → shift + 7 * k ≡ 63
    → b < 128
    → b * 2 ^ shift < 2 ^ 64
    → scan_uvarint (suc k) shift value (b ∷ rest) ≡ (ok (bit_or value (u64 (b * 2 ^ shift))), rest)
unfolding scan_uvarint
scan_last k shift value b front rest d small fits = ground (arith, last_bit b k shift)

scan_inner :
    (k shift value b : ℕ) (front rest : List ℕ)
    → 128 ≤ b
    → scan_uvarint (suc k) shift value (b ∷ rest)
      ≡ scan_uvarint k (shift + 7) (bit_or value (u64 (bit_and b 0x7f * 2 ^ shift))) rest
unfolding scan_uvarint
scan_inner k shift value b front rest large = ground arith

abbrev scan_loop : VarintLoop (List ℕ)
scan_loop = record {
  loop = scan_uvarint;
  holding = λ front rest. rest;
  last = scan_last;
  inner = scan_inner;
}

-- The scan reads a uint64 that was appended and stops right behind it.
pub uvarint_lem :
    (x : ℕ) (rest : List ℕ) → IsU64 x → uvarint (uvarint_bytes x ++ rest) ≡ (ok x, rest)
unfolding uvarint
uvarint_lem x rest h = loop-uvarint_bytes scan_loop x [] rest h

scan-count_varints :
    (rounds shift value : ℕ) (buffer : List ℕ) (x : ℕ) (rest : List ℕ)
    → scan_uvarint rounds shift value buffer ≡ (ok x, rest)
    → count_varints buffer ≡ suc (count_varints rest)
unfolding scan_uvarint count_varints
scan-count_varints zero shift value buffer x rest h = cc
scan-count_varints (suc rounds) shift value [] x rest h = cc
scan-count_varints (suc rounds) shift value (b ∷ buffer) x rest h = ground (
  arith,
  scan-count_varints rounds (shift + 7) (bit_or value (u64 (bit_and b 0x7f * 2 ^ shift))) buffer x
      rest,
)

-- A scan that succeeds takes one of the bytes that `countVarints` counts.
pub uvarint-count_varints :
    (buffer : List ℕ) (x : ℕ) (rest : List ℕ)
    → uvarint buffer ≡ (ok x, rest)
    → count_varints buffer ≡ suc (count_varints rest)
unfolding uvarint
uvarint-count_varints buffer x rest h = scan-count_varints 10 0 0 buffer x rest h

scan-returns :
    (rounds shift value : ℕ) (buffer : List ℕ) → (scan_uvarint rounds shift value buffer).0 ≢ panic
unfolding scan_uvarint
scan-returns zero shift value buffer = λ e. cc
scan-returns (suc rounds) shift value [] = λ e. cc
scan-returns (suc rounds) shift value (b ∷ buffer) = ground (
  arith,
  scan-returns rounds (shift + 7) (bit_or value (u64 (bit_and b 0x7f * 2 ^ shift))) buffer,
)

pub uvarint-returns : (buffer : List ℕ) → (uvarint buffer).0 ≢ panic
unfolding uvarint
uvarint-returns buffer = scan-returns 10 0 0 buffer
