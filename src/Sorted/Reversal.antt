-- ===== src/Sorted/Reversal.antt =====
-- `math/bits.Reverse32`: the bits of a word in reverse.
use binary.Prelude.{ℕ, ◌≤◌, zero, suc, ◌+◌, ◌*◌, ◌/◌, ◌%◌, ◌^◌, ◌<◌, ◌≡◌, refl, ap, ◌∙◌, arith}
use binary.Prelude.Bits.{double_shift}
use native.Mathlib.Nat.{pow-suc, one-le-pow}

pub reverse_bits : ℕ → ℕ → ℕ
reverse_bits zero x = 0
reverse_bits (suc w) x = x % 2 * 2 ^ w + reverse_bits w (x / 2)

abbrev pub reverse32 : ℕ → ℕ
reverse32 x = reverse_bits 32 x

bit_times : (b p : ℕ) → b < 2 → 0 < p → b * p ≤ p
bit_times zero p h g = omega arith
bit_times (suc zero) p h g = omega arith
bit_times (suc (suc b)) p h g = absurd (omega arith)

pub reverse_bits-lt : (w x : ℕ) → reverse_bits w x < 2 ^ w
unfolding reverse_bits
reverse_bits-lt zero x = omega arith
reverse_bits-lt (suc w) x = omega (
  arith,
  pow-suc 2 w,
  reverse_bits-lt w (x / 2),
  bit_times (x % 2) (2 ^ w) (omega arith) (omega (arith, one-le-pow w 2)),
)

half_top : (w b y : ℕ) → (b * 2 ^ suc w + y) / 2 ≡ b * 2 ^ w + y / 2
half_top w b y = omega (arith, double_shift b w)

parity_top : (w b y : ℕ) → (b * 2 ^ suc w + y) % 2 ≡ y % 2
parity_top w b y = omega (arith, double_shift b w)

-- The top bit comes last.
reverse_top :
    (w b y : ℕ)
    → b < 2
    → y < 2 ^ w
    → reverse_bits (suc w) (b * 2 ^ w + y) ≡ reverse_bits w y * 2 + b
unfolding reverse_bits
reverse_top zero b y h g = omega arith
reverse_top (suc w) b y h g =
    rw (parity_top w b y, half_top w b y)
      (omega
        (arith, reverse_top w b (y / 2) h (omega (arith, pow-suc 2 w)), double_shift (y % 2) w))

no_bits : (x : ℕ) → x < 2 ^ 0 → reverse_bits 0 (reverse_bits 0 x) ≡ x
unfolding reverse_bits
no_bits x h = omega arith

last_bit : (w x : ℕ) → reverse_bits (suc w) x ≡ x % 2 * 2 ^ w + reverse_bits w (x / 2)
unfolding reverse_bits
last_bit w x = refl

pub reverse_bits_twice : (w x : ℕ) → x < 2 ^ w → reverse_bits w (reverse_bits w x) ≡ x
reverse_bits_twice zero x h = no_bits x h
reverse_bits_twice (suc w) x h =
    ap (reverse_bits (suc w)) (last_bit w x)
    ∙ reverse_top w (x % 2) (reverse_bits w (x / 2)) (omega arith) (reverse_bits-lt w (x / 2))
    ∙ omega (arith, reverse_bits_twice w (x / 2) (omega (arith, pow-suc 2 w)))
