-- ===== src/Prelude/Bits.antt =====
-- The masks and shifts of the varint codecs, read as arithmetic. One equation for the lowest
-- binary digit gives the laws at every width; a mask over one byte is a table.
use Prim.Native.Nat.{ℕ, zero, suc, ◌+◌, ◌-◌, ◌*◌, ◌/◌, ◌%◌, ◌^◌, ◌≤◌, ◌<◌, max}
use Prim.Native.Nat.{bit_and, bit_or, bit_xor, digits, bitwise, differ}
use Prim.Native.Nat.{bit_and-bitwise, bit_or-bitwise, bit_xor-bitwise, min}
use mathlib.Core.Path.{◌≡◌, refl, ap}
use mathlib.Core.Bool.{Bool, true, ◌&&◌}
use native.Mathlib.Omega.{arith}
use native.Mathlib.Nat.{pow-suc, one-le-pow}
use binary.Prelude.Tests.{◌==◌, ==_iff}

-- Over a small range every value is tried.
every_below : ℕ → (ℕ → Bool) → Bool
every_below zero p = true
every_below (suc n) p = p n && every_below n p

every_below_sound : (n : ℕ) (p : ℕ → Bool) (x : ℕ) → every_below n p ≡ true → x < n → p x ≡ true
unfolding every_below
every_below_sound zero p x h lt = absurd (omega arith)
every_below_sound (suc n) p x h lt = ground (arith, every_below_sound n p x)

low_table : every_below 256 (λ b. bit_and b 0x7f == b % 128) ≡ true
unfolding every_below
low_table = refl

pub bit_and_low : (b : ℕ) → b < 256 → bit_and b 0x7f ≡ b % 128
bit_and_low b h = (==_iff _ _).0 (every_below_sound 256 _ b low_table h)

top_table : every_below 256 (λ b. bit_or b 0x80 == b % 128 + 128) ≡ true
unfolding every_below
top_table = refl

pub bit_or_top : (b : ℕ) → b < 256 → bit_or b 0x80 ≡ b % 128 + 128
bit_or_top b h = (==_iff _ _).0 (every_below_sound 256 _ b top_table h)

-- The native operations stand for `digits`, a recursion on the binary digits with fuel. The fuel
-- does not matter once it reaches the first number.
module _ (z : ℕ → ℕ) (f : ℕ → ℕ → ℕ) where
  digits_spare : (n m a b : ℕ) → a ≤ n → n ≤ m → digits z f n a b ≡ digits z f m a b
  digits_spare zero zero zero b p q = refl
  digits_spare zero (suc m) zero b p q = refl
  digits_spare (suc n) zero zero b p q = refl
  digits_spare (suc n) (suc m) zero b p q = refl
  digits_spare zero m (suc a) b p q = absurd (omega arith)
  digits_spare (suc n) zero (suc a) b p q = absurd (omega arith)
  digits_spare (suc n) (suc m) (suc a) b p q =
      rw (digits_spare n m (suc a / 2) (b / 2) (omega arith) (omega arith))

  bitwise_digit :
      (a b : ℕ)
      → bitwise z f (suc a) b ≡ bitwise z f (suc a / 2) (b / 2) * 2 + f (suc a % 2) (b % 2)
  bitwise_digit a b =
      omega (arith, digits_spare (suc a / 2) a (suc a / 2) (b / 2) (omega arith) (omega arith))

or_digit : (a b : ℕ) → bit_or a b ≡ bit_or (a / 2) (b / 2) * 2 + max (a % 2) (b % 2)
or_digit zero b = simp bit_or-bitwise (omega arith)
or_digit (suc a) b = simp bit_or-bitwise (bitwise_digit (λ y. y) max a b)

differ_lem : (a b : ℕ) → a < 2 → b < 2 → differ a b ≡ (a + b) % 2
differ_lem zero b h k = omega arith
differ_lem (suc zero) zero h k = refl
differ_lem (suc zero) (suc zero) h k = refl
differ_lem (suc zero) (suc (suc b)) h k = absurd (omega arith)
differ_lem (suc (suc a)) b h k = absurd (omega arith)

xor_digit : (a b : ℕ) → bit_xor a b ≡ bit_xor (a / 2) (b / 2) * 2 + (a % 2 + b % 2) % 2
xor_digit zero b = simp bit_xor-bitwise (omega arith)
xor_digit (suc a) b = simp bit_xor-bitwise (
    omega (
      arith,
      bitwise_digit (λ y. y) differ a b,
      differ_lem (suc a % 2) (b % 2) (omega arith) (omega arith),
    ))

and_digit : (a b : ℕ) → bit_and a b ≡ bit_and (a / 2) (b / 2) * 2 + min (a % 2) (b % 2)
and_digit zero b = simp bit_and-bitwise (omega arith)
and_digit (suc a) b = simp bit_and-bitwise (bitwise_digit (λ y. 0) min a b)

and-zero : (n a : ℕ) → a ≤ n → bit_and a 0 ≡ 0
and-zero n zero h = refl
and-zero zero (suc a) h = absurd (omega arith)
and-zero (suc n) (suc a) h =
    omega (arith, and_digit (suc a) 0, and-zero n (suc a / 2) (omega arith))

pub bit_and_one : (a : ℕ) → bit_and a 1 ≡ a % 2
bit_and_one a = omega (arith, and_digit a 1, and-zero (a / 2) (a / 2) (omega arith))

-- `(q << k) | r` and `r | (q << k)` are sums when `r` fits in `k` bits.
pub zero-or : (b : ℕ) → bit_or 0 b ≡ b
zero-or b = bit_or-bitwise 0 b

or-zero : (n a : ℕ) → a ≤ n → bit_or a 0 ≡ a
or-zero n zero h = refl
or-zero zero (suc a) h = absurd (omega arith)
or-zero (suc n) (suc a) h = omega (arith, or_digit (suc a) 0, or-zero n (suc a / 2) (omega arith))

pub double_shift : (q k : ℕ) → q * 2 ^ suc k ≡ 2 * (q * 2 ^ k)
double_shift q k = omega (arith, ap (λ (t : ℕ). q * t) (pow-suc 2 k))

pub bit_or_high : (k r q : ℕ) → r < 2 ^ k → bit_or r (q * 2 ^ k) ≡ r + q * 2 ^ k
bit_or_high zero r q h = ground (arith, zero-or q)
bit_or_high (suc k) r q h = ground (
  arith,
  or_digit r (q * 2 ^ suc k),
  double_shift q k,
  pow-suc 2 k,
  bit_or_high k (r / 2) q (omega arith),
)

-- `x ^ 0` and `x ^ (2^k - 1)`: the identity and the complement in `k` bits.
zero-xor : (b : ℕ) → bit_xor 0 b ≡ b
zero-xor b = bit_xor-bitwise 0 b

xor-zero_below : (n a : ℕ) → a ≤ n → bit_xor a 0 ≡ a
xor-zero_below n zero h = refl
xor-zero_below zero (suc a) h = absurd (omega arith)
xor-zero_below (suc n) (suc a) h =
    omega (arith, xor_digit (suc a) 0, xor-zero_below n (suc a / 2) (omega arith))

pub xor-zero : (a : ℕ) → bit_xor a 0 ≡ a
xor-zero a = xor-zero_below a a (omega arith)

pub xor_ones : (k x : ℕ) → x < 2 ^ k → bit_xor x (2 ^ k - 1) ≡ 2 ^ k - 1 - x
xor_ones zero x h = ground (arith, xor-zero x)
xor_ones (suc k) x h = ground (
  arith,
  xor_digit x (2 ^ suc k - 1),
  pow-suc 2 k,
  one-le-pow k 2,
  xor_ones k (x / 2) (omega arith),
)

-- A second `^ b` takes the first one back.
pub xor_cancel : (k a b : ℕ) → a < 2 ^ k → b < 2 ^ k → bit_xor (bit_xor a b) b ≡ a
xor_cancel zero a b h g = ground (arith, xor-zero a, xor-zero (bit_xor a b))
xor_cancel (suc k) a b h g = ground (
  arith,
  xor_digit a b,
  xor_digit (bit_xor a b) b,
  pow-suc 2 k,
  xor_cancel k (a / 2) (b / 2) (omega arith) (omega arith),
)

pub bit_xor-lt : (k a b : ℕ) → a < 2 ^ k → b < 2 ^ k → bit_xor a b < 2 ^ k
bit_xor-lt zero a b h g = ground (arith, xor-zero a)
bit_xor-lt (suc k) a b h g =
    ground
      (arith, xor_digit a b, pow-suc 2 k, bit_xor-lt k (a / 2) (b / 2) (omega arith) (omega arith))

half_xor : (a b : ℕ) → bit_xor a b / 2 ≡ bit_xor (a / 2) (b / 2)
half_xor a b = omega (arith, xor_digit a b)

xor_same : (n a b : ℕ) → a ≤ n → b ≤ n → bit_xor b (bit_xor a b) ≡ a
xor_same zero zero zero h g = refl
xor_same zero (suc a) b h g = absurd (omega arith)
xor_same zero zero (suc b) h g = absurd (omega arith)
xor_same (suc n) a b h g = omega (
  arith,
  xor_digit a b,
  xor_digit b (bit_xor a b),
  ap (λ (t : ℕ). bit_xor (b / 2) t) (half_xor a b),
  xor_same n (a / 2) (b / 2) (omega arith) (omega arith),
)

pub bit_xor_self : (a b : ℕ) → bit_xor b (bit_xor a b) ≡ a
bit_xor_self a b = xor_same (a + b) a b (omega arith) (omega arith)
