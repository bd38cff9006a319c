-- ===== src/Varint/Shape.antt =====
-- encoder.go: the bytes of a varint and their number.
use binary.Prelude.{ℕ, zero, suc, ◌+◌, ◌*◌, ◌/◌, ◌%◌, ◌^◌, ◌≤◌, ◌<◌, ◌≡◌, arith, length, All}
use binary.Prelude.{List, [], ◌∷◌, ◌∙◌}
use native.Mathlib.Decide.{dec_lt}
use native.Mathlib.Nat.{pow-suc}
use binary.Prelude.Bits.{bit_or_top}
use binary.Base.{IsByte, IsU64}
use binary.Prelude.Int.{ℤ}
use binary.Varint.{put_groups, uvarint_bytes, size_loop, uvarint_size, varint_bytes, fold_sign}

-- The two ways a group is written, in plain arithmetic.
pub put_groups_last : (slots x : ℕ) → x < 128 → put_groups (suc slots) x ≡ x ∷ []
unfolding put_groups
put_groups_last slots x h = ground arith

pub put_groups_more :
    (slots x : ℕ)
    → 128 ≤ x
    → put_groups (suc slots) x ≡ (x % 128 + 128) ∷ put_groups slots (x / 128)
unfolding put_groups
put_groups_more slots x h = ground (arith, bit_or_top (x % 256) (omega arith))

-- `WriteUvarint` has a case of its own for one byte, which changes nothing.
pub uvarint_bytes-eq-put_groups : (x : ℕ) → uvarint_bytes x ≡ put_groups 10 x
unfolding uvarint_bytes
uvarint_bytes-eq-put_groups x = ground (arith, put_groups_last 9 x)

put_groups-IsByte : (slots x : ℕ) → All IsByte (put_groups slots x)
put_groups-IsByte zero x = unfold put_groups in tt
put_groups-IsByte (suc slots) x = elim (dec_lt x 128) [
  | yes h ↦ rw (put_groups_last slots x h) (omega arith)
  | no h ↦
      rw (put_groups_more slots x (omega arith)) (omega arith, put_groups-IsByte slots (x / 128))
]

pub uvarint_bytes-IsByte : (x : ℕ) → All IsByte (uvarint_bytes x)
uvarint_bytes-IsByte x = rw (uvarint_bytes-eq-put_groups x) (put_groups-IsByte 10 x)

-- The last byte alone has its top bit clear: what a reader stops at.
size_loop-put_groups :
    (k x size : ℕ)
    → x < 2 * 128 ^ k
    → size_loop (suc k) x (size + 1) ≡ size + length (put_groups (suc k) x)
unfolding size_loop
size_loop-put_groups zero x size h = ground (arith, put_groups_last 0 x)
size_loop-put_groups (suc k) x size h = ground (
  arith,
  put_groups_last (suc k) x,
  put_groups_more (suc k) x,
  pow-suc 128 k,
  size_loop-put_groups k (x / 128) (size + 1) (omega (arith, pow-suc 128 k)),
)

-- For every uint64, uvarintSize is the number of bytes that WriteUvarint writes for it.
pub uvarint_size-length : (x : ℕ) → IsU64 x → uvarint_size x ≡ length (uvarint_bytes x)
unfolding uvarint_size
uvarint_size-length x h =
    rw (uvarint_bytes-eq-put_groups x) (omega (arith, size_loop-put_groups 9 x 0 (omega arith)))

length-put_groups :
    (slots x : ℕ)
    → (1 ≤ length (put_groups (suc slots) x)) × (length (put_groups (suc slots) x) ≤ suc slots)
unfolding put_groups
length-put_groups zero x = ground arith
length-put_groups (suc slots) x = ground (arith, length-put_groups slots (x / 2 ^ 7))

pub length-uvarint_bytes :
    (x : ℕ) → (1 ≤ length (uvarint_bytes x)) × (length (uvarint_bytes x) ≤ 10)
length-uvarint_bytes x = rw (uvarint_bytes-eq-put_groups x) (length-put_groups 9 x)

pub varint_bytes-eq-uvarint_bytes : (v : ℤ) → varint_bytes v ≡ uvarint_bytes (fold_sign v)
unfolding varint_bytes
varint_bytes-eq-uvarint_bytes v = rw (uvarint_bytes-eq-put_groups (fold_sign v))

-- A varint begins with a byte.
pub uvarint_bytes-cons :
    (x : ℕ) → (b : ℕ) × (more : List ℕ) × (uvarint_bytes x ≡ b ∷ more) × IsByte b
uvarint_bytes-cons x = elim (dec_lt x 128) [
  | yes h ↦ (x, [], uvarint_bytes-eq-put_groups x ∙ put_groups_last 9 x h, omega arith)
  | no h ↦ (
    x % 128 + 128,
    put_groups 9 (x / 128),
    uvarint_bytes-eq-put_groups x ∙ put_groups_more 9 x (omega arith),
    omega arith,
  )
]
