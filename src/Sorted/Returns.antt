-- ===== src/Sorted/Returns.antt =====
-- sorted/codecs.go and sorted/timeseries.go: the loops over the differences do not panic.
use binary.Prelude.{ℕ, zero, suc, ◌+◌, ◌*◌, ◌^◌, ◌≢◌, List, [], ◌∷◌, bit_and, bit_or, arith}
use binary.Base.{panic, M, next-returns, u64}
use binary.Sorted.{scan_uvarint, uvarint, read_delta, add64}

-- A call on a buffer that does not panic.
abbrev pub Returns : {A : Type 0} → M (List ℕ) A → Type 0
Returns m = (b : List ℕ) → (m b).0 ≢ panic

scan_uvarint-Returns : (rounds shift value : ℕ) → Returns (scan_uvarint rounds shift value)
unfolding scan_uvarint
scan_uvarint-Returns zero shift value b = λ p. cc
scan_uvarint-Returns (suc rounds) shift value [] = λ p. cc
scan_uvarint-Returns (suc rounds) shift value (b ∷ rest) = ground (
  arith,
  scan_uvarint-Returns rounds (shift + 7) (bit_or value (u64 (bit_and b 0x7f * 2 ^ shift))) rest,
)

pub uvarint-Returns : Returns uvarint
unfolding uvarint
uvarint-Returns b = scan_uvarint-Returns 10 0 0 b

pub read_delta-Returns : (n prev : ℕ) → Returns (read_delta n prev)
unfolding read_delta
read_delta-Returns zero prev b = λ p. cc
read_delta-Returns (suc n) prev b = next-returns (uvarint b) _ (uvarint-Returns b) λ diff b' e.
    next-returns (read_delta n (add64 prev diff) b') _ (read_delta-Returns n (add64 prev diff) b')
      (λ xs r g p. cc)
