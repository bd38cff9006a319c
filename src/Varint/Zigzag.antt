-- ===== src/Varint/Zigzag.antt =====
-- The sign fold of WriteVarint and decodeVarint.
use binary.Prelude.{ℕ, ◌+◌, ◌*◌, ◌≡◌, arith}
use binary.Prelude.Bits.{xor-zero, xor_ones}
use binary.Prelude.Int.{ℤ, pos, negsuc, InRange, word}
use binary.Base.{IsU64, u64}
use binary.Varint.{fold_sign, decode_varint}

-- The fold in plain arithmetic: 0, -1, 1, -2, ... go to 0, 1, 2, 3, ...
abbrev zigzag : ℤ → ℕ
zigzag (pos n) = 2 * n
zigzag (negsuc n) = 2 * n + 1

pub fold_sign-eq-zigzag : (v : ℤ) → InRange 64 v → fold_sign v ≡ zigzag v
unfolding fold_sign
fold_sign-eq-zigzag (pos n) h = omega arith
fold_sign-eq-zigzag (negsuc n) h =
    omega (arith, xor_ones 64 (u64 (word 64 (negsuc n) * 2)) (omega arith))

pub fold_sign-IsU64 : (v : ℤ) → InRange 64 v → IsU64 (fold_sign v)
fold_sign-IsU64 (pos n) h = omega (arith, fold_sign-eq-zigzag (pos n) h)
fold_sign-IsU64 (negsuc n) h = omega (arith, fold_sign-eq-zigzag (negsuc n) h)

decode_varint-zigzag : (v : ℤ) → InRange 64 v → decode_varint (zigzag v) ≡ v
unfolding decode_varint
decode_varint-zigzag (pos n) h = ground (arith, xor-zero n)
decode_varint-zigzag (negsuc n) h = ground (arith, xor_ones 64 n (omega arith))

-- For every int64, decodeVarint of the unsigned number that WriteVarint makes of it is the integer
-- itself.
pub decode_varint-fold_sign : (v : ℤ) → InRange 64 v → decode_varint (fold_sign v) ≡ v
decode_varint-fold_sign v h = rw (fold_sign-eq-zigzag v h) (decode_varint-zigzag v h)
