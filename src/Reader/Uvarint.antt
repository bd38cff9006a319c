-- ===== src/Reader/Uvarint.antt =====
-- reader.go: ReadUvarint and ReadVarint of the slice reader on bytes that the encoder wrote.
use binary.Prelude.{ℕ, suc, ◌+◌, ◌*◌, ◌^◌, ◌≤◌, ◌<◌, ◌≡◌}
use binary.Prelude.{List, [], ◌∷◌, ◌++◌, arith, bit_or, bit_and, ltb, ◌==◌}
use binary.Prelude.{◌&&◌, if◌then◌else◌, length, length-append, get_elem?-append_mid}
use binary.Prelude.Int.{ℤ, InRange}
use binary.Base.{ok, overflow, fail, pure, IsU64, u64}
use binary.Varint.{uvarint_bytes, varint_bytes, fold_sign}
use binary.Varint.Shape.{varint_bytes-eq-uvarint_bytes}
use binary.Varint.Zigzag.{fold_sign-IsU64, decode_varint-fold_sign}
use binary.Varint.Loop.{VarintLoop, loop-uvarint_bytes}
use binary.Reader.{SliceReader, uvarint_loop, read_uvarint, read_varint}
use binary.Reader.View.{at, at-advance}

-- One round at a byte that is there.
uvarint_round :
    (rounds shift value b : ℕ) (front rest : List ℕ)
    → uvarint_loop (suc rounds) shift value (at front (b ∷ rest))
      ≡ (if ltb b 0x80
            then (if (shift == 63) && ltb 1 b
                then fail overflow
                else pure (bit_or value (u64 (b * 2 ^ shift))))
            else uvarint_loop rounds (shift + 7) (bit_or value (u64 (bit_and b 0x7f * 2 ^ shift))))
          (at (front ++ (b ∷ [])) rest)
uvarint_round rounds shift value b front rest =
    unfold uvarint_loop in
    ground (
      arith,
      length-append front (b ∷ rest),
      get_elem?-append_mid front rest b,
      at-advance front (b ∷ []) rest (length front + 1),
    )

slice_last :
    (k shift value b : ℕ) (front rest : List ℕ)
    → shift + 7 * k ≡ 63
    → b < 128
    → b * 2 ^ shift < 2 ^ 64
    → uvarint_loop (suc k) shift value (at front (b ∷ rest))
      ≡ (ok (bit_or value (u64 (b * 2 ^ shift))), at (front ++ (b ∷ [])) rest)
slice_last k shift value b front rest d small fits =
    rw (uvarint_round k shift value b front rest) (ground arith)

slice_inner :
    (k shift value b : ℕ) (front rest : List ℕ)
    → 128 ≤ b
    → uvarint_loop (suc k) shift value (at front (b ∷ rest))
      ≡ uvarint_loop k
          (shift + 7)
          (bit_or value (u64 (bit_and b 0x7f * 2 ^ shift)))
          (at (front ++ (b ∷ [])) rest)
slice_inner k shift value b front rest large =
    rw (uvarint_round k shift value b front rest) (ground arith)

abbrev slice_loop : VarintLoop SliceReader
slice_loop = record { loop = uvarint_loop; holding = at; last = slice_last; inner = slice_inner }

-- `ReadUvarint` reads a uint64 that `WriteUvarint` wrote, and leaves the reader right behind it.
pub read_uvarint-at :
    (x : ℕ) (front rest : List ℕ)
    → IsU64 x
    → read_uvarint (at front (uvarint_bytes x ++ rest)) ≡ (ok x, at (front ++ uvarint_bytes x) rest)
unfolding read_uvarint
read_uvarint-at = loop-uvarint_bytes slice_loop

-- ReadVarint of the slice reader reads an int64 that WriteVarint wrote, at any position of a buffer
-- and whatever follows, and leaves the reader right behind it.
pub read_varint-at :
    (v : ℤ) (front rest : List ℕ)
    → InRange 64 v
    → read_varint (at front (varint_bytes v ++ rest)) ≡ (ok v, at (front ++ varint_bytes v) rest)
unfolding read_varint
read_varint-at v front rest h =
    let back = read_uvarint-at (fold_sign v) front rest (fold_sign-IsU64 v h) in
    rw (varint_bytes-eq-uvarint_bytes v) (rw (back, decode_varint-fold_sign v h))
