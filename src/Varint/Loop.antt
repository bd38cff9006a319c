-- ===== src/Varint/Loop.antt =====
-- A loop that reads a varint one byte at a time, as an interface: what one round does at a byte
-- that ends the number and at one that does not.
use binary.Prelude.{ℕ, zero, suc, ◌+◌, ◌*◌, ◌/◌, ◌%◌, ◌^◌, ◌≤◌, ◌<◌, ◌≡◌, refl, ap, ◌∙◌}
use binary.Prelude.{List, [], ◌∷◌, ◌++◌, append_assoc, arith, bit_or, bit_and}
use binary.Prelude.Bits.{bit_and_low, bit_or_high}
use binary.Base.{Result, ok, IsU64, u64}
use binary.Varint.{put_groups, uvarint_bytes}
use binary.Varint.Shape.{put_groups_last, put_groups_more, uvarint_bytes-eq-put_groups}
use native.Mathlib.Nat.{pow-suc, one-le-pow, div-add-mod}
use native.Mathlib.Numerals.{towards_suc}
use native.Mathlib.Decide.{dec_lt}
use mathlib.Core.Path.{ap₂, subst}

-- `loop rounds shift value s`; `holding front rest` has read `front` and has `rest` before it.
-- With `k` rounds to go after this one, `shift` is 63 - 7k.
pub record VarintLoop (S : Type 0) : Type 0 where
  pub loop : ℕ → ℕ → ℕ → S → Result ℕ × S
  pub holding : List ℕ → List ℕ → S
  pub last :
      (k shift value b : ℕ) (front rest : List ℕ)
      → shift + 7 * k ≡ 63
      → b < 128
      → b * 2 ^ shift < 2 ^ 64
      → loop (suc k) shift value (holding front (b ∷ rest))
        ≡ (ok (bit_or value (u64 (b * 2 ^ shift))), holding (front ++ (b ∷ [])) rest)
  pub inner :
      (k shift value b : ℕ) (front rest : List ℕ)
      → 128 ≤ b
      → loop (suc k) shift value (holding front (b ∷ rest))
        ≡ loop k
            (shift + 7)
            (bit_or value (u64 (bit_and b 0x7f * 2 ^ shift)))
            (holding (front ++ (b ∷ [])) rest)

-- In the last round there is room for one bit.
pub last_bit : (b k shift : ℕ) → shift + 7 * k ≡ 63 → b * 2 ^ shift < 2 ^ 64 → k ≡ 0 → b ≤ 1
last_bit b k shift d fits e =
    let top : shift ≡ 63 = omega arith in
    let fits' : b * 2 ^ 63 < 2 ^ 64 = subst (λ s. b * 2 ^ s < 2 ^ 64) top fits in omega arith

mul_lt : (x m q : ℕ) → x < m → 1 ≤ q → x * q < m * q
mul_lt x m q h p = grind arith

mul_le : (x m q : ℕ) → x ≤ m → x * q ≤ m * q
mul_le x m q h = grind arith

-- A number with room for 64 bits at `shift` keeps them when shifted.
shift_fits :
    (k x shift : ℕ) → 2 ^ shift * 128 ^ k ≡ 2 ^ 63 → x < 2 * 128 ^ k → x * 2 ^ shift < 2 ^ 64
shift_fits k x shift e h = omega (
  arith,
  mul_lt x (2 * 128 ^ k) (2 ^ shift) h (one-le-pow shift 2 (omega arith)),
  ap (λ (t : ℕ). 2 * t) e,
)

shift_seven : (s : ℕ) → 2 ^ (s + 7) ≡ 128 * 2 ^ s
shift_seven s = simp towards_suc (omega arith)

split_groups : (x s : ℕ) → x * 2 ^ s ≡ x % 128 * 2 ^ s + x / 128 * 2 ^ (s + 7)
split_groups x s = omega (
  arith,
  ap (λ (t : ℕ). t * 2 ^ s) (div-add-mod x 128),
  ap (λ (t : ℕ). x / 128 * t) (shift_seven s),
)

scale_next : (k shift : ℕ) → 2 ^ shift * 128 ^ suc k ≡ 2 ^ 63 → 2 ^ (shift + 7) * 128 ^ k ≡ 2 ^ 63
scale_next k shift e = omega (
  arith,
  ap (λ (t : ℕ). t * 128 ^ k) (shift_seven shift),
  ap (λ (t : ℕ). 2 ^ shift * t) (pow-suc 128 k),
)

value_next :
    (g shift value : ℕ) → g < 128 → value < 2 ^ shift → value + g * 2 ^ shift < 2 ^ (shift + 7)
value_next g shift value hg hv =
    omega (arith, shift_seven shift, mul_le g 127 (2 ^ shift) (omega arith))

module _ {S : Type 0} (l : VarintLoop S) where
  open l use {loop, holding}

  last_round :
      (k x shift value : ℕ) (front rest : List ℕ)
      → shift + 7 * k ≡ 63
      → x < 128
      → x * 2 ^ shift < 2 ^ 64
      → value < 2 ^ shift
      → loop (suc k) shift value (holding front (x ∷ rest))
        ≡ (ok (value + x * 2 ^ shift), holding (front ++ (x ∷ [])) rest)
  last_round k x shift value front rest d small fits hv =
      l.last k shift value x front rest d small fits
      ∙ ap (λ (v : ℕ). (ok v, holding (front ++ (x ∷ [])) rest))
          (ground (arith, bit_or_high shift value x hv))

  inner_round :
      (k g shift value : ℕ) (front rest : List ℕ)
      → g < 128
      → g * 2 ^ shift < 2 ^ 64
      → value < 2 ^ shift
      → loop (suc k) shift value (holding front ((g + 128) ∷ rest))
        ≡ loop k (shift + 7) (value + g * 2 ^ shift) (holding (front ++ ((g + 128) ∷ [])) rest)
  inner_round k g shift value front rest hg fits hv =
      l.inner k shift value (g + 128) front rest (omega arith)
      ∙ ap (λ (v : ℕ). loop k (shift + 7) v (holding (front ++ ((g + 128) ∷ [])) rest))
          (ground (arith, bit_and_low (g + 128) (omega arith), bit_or_high shift value g hv))

  -- With `shift` at 63 - 7k there is room for one bit and k groups.
  loop-put_groups :
      (k x shift value : ℕ) (front rest : List ℕ)
      → shift + 7 * k ≡ 63
      → 2 ^ shift * 128 ^ k ≡ 2 ^ 63
      → value < 2 ^ shift
      → x < 2 * 128 ^ k
      → loop (suc k) shift value (holding front (put_groups (suc k) x ++ rest))
        ≡ (ok (value + x * 2 ^ shift), holding (front ++ put_groups (suc k) x) rest)
  loop-put_groups zero x shift value front rest d e hv hx =
      rw (put_groups_last 0 x (omega arith))
        (last_round 0 x shift value front rest d (omega arith) (shift_fits 0 x shift e hx) hv)
  loop-put_groups (suc k) x shift value front rest d e hv hx = elim (dec_lt x 128) [
    | yes small ↦
        rw (put_groups_last (suc k) x small)
          (last_round (suc k) x shift value front rest d small (shift_fits (suc k) x shift e hx) hv)
    | no large ↦
        let g = x % 128 in
        let fits : g * 2 ^ shift < 2 ^ 64 =
          shift_fits (suc k) g shift e
            (omega (arith, pow-suc 128 k, one-le-pow k 128 (omega arith))) in
        rw
          (
            put_groups_more (suc k) x (omega arith),
            inner_round (suc k) g shift value front (put_groups (suc k) (x / 128) ++ rest)
                (omega arith) fits hv,
            loop-put_groups k (x / 128) (shift + 7) (value + g * 2 ^ shift)
                (front ++ ((g + 128) ∷ [])) rest (omega arith) (scale_next k shift e)
                (value_next g shift value (omega arith) hv) (omega (arith, pow-suc 128 k)),
          )
          (ap₂ (λ (v : ℕ) (f : List ℕ). (ok v, holding f rest))
            (omega (arith, split_groups x shift))
            (append_assoc front ((g + 128) ∷ []) (put_groups (suc k) (x / 128))))
  ]

  -- The loop over `uvarint_bytes x`, started at the first bit, returns `x`.
  pub loop-uvarint_bytes :
      (x : ℕ) (front rest : List ℕ)
      → IsU64 x
      → loop 10 0 0 (holding front (uvarint_bytes x ++ rest))
        ≡ (ok x, holding (front ++ uvarint_bytes x) rest)
  loop-uvarint_bytes x front rest h = rw (uvarint_bytes-eq-put_groups x) (
      loop-put_groups 9 x 0 0 front rest refl refl (omega arith) (omega arith)
      ∙ ap (λ (v : ℕ). (ok v, holding (front ++ put_groups 10 x) rest)) (omega arith))
