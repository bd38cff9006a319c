-- ===== src/Varint.antt =====
-- The variable-length integers of encoder.go and codecs.go: seven bits a byte, lowest group first,
-- the top bit set on every byte but the last; a signed integer is folded to an unsigned one first.
pub mod Zigzag
pub mod Shape
pub mod Loop
use binary.Prelude.{ℕ, zero, suc, ◌+◌, ◌-◌, ◌*◌, ◌/◌, ◌%◌, ◌^◌, bit_or, bit_xor, leb, ltb}
use binary.Prelude.{List, [], ◌∷◌, if◌then◌else◌, Bool}
use binary.Prelude.Int.{ℤ, pos, negsuc, word, signed}
use binary.Base.{u64}

-- `for x >= 0x80 { scratch[i] = byte(x) | 0x80; x >>= 7; i++ }; scratch[i] = byte(x)`, with `slots`
-- the bytes of `scratch` that are left.
pub put_groups : ℕ → ℕ → List ℕ
put_groups zero x = []
put_groups (suc slots) x =
    let rest = put_groups slots (x / 2 ^ 7) in
    if leb 0x80 x then bit_or (x % 256) 0x80 ∷ rest else (x % 256) ∷ []

-- The bytes that `WriteUvarint` hands to `Write`.
pub uvarint_bytes : ℕ → List ℕ
unfolding put_groups
uvarint_bytes x = if ltb x 0x80 then (x % 256) ∷ [] else put_groups 10 x

-- The fold of `WriteVarint`: `x := uint64(v) << 1; if v < 0 { x = ^x }`.
pub fold_sign : ℤ → ℕ
fold_sign (pos n) = u64 (word 64 (pos n) * 2)
fold_sign (negsuc n) = bit_xor (u64 (word 64 (negsuc n) * 2)) (2 ^ 64 - 1)

-- The bytes that `WriteVarint` hands to `Write`.
pub varint_bytes : ℤ → List ℕ
unfolding put_groups fold_sign
varint_bytes v = put_groups 10 (fold_sign v)

-- `int64(x>>1) ^ -int64(x&1)`, on the 64-bit patterns of both operands.
pub decode_varint : ℕ → ℤ
decode_varint x = signed 64 (bit_xor (x / 2) (u64 (2 ^ 64 - x % 2)))

-- `size := 1; for x >= 0x80 { x >>= 7; size++ }`, with fuel.
pub size_loop : ℕ → ℕ → ℕ → ℕ
size_loop zero x size = size
size_loop (suc fuel) x size =
    let more = size_loop fuel (x / 2 ^ 7) (size + 1) in if leb 0x80 x then more else size

pub uvarint_size : ℕ → ℕ
unfolding size_loop
uvarint_size x = size_loop 10 x 1
