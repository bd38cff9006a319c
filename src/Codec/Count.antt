-- ===== src/Codec/Count.antt =====
-- The count that stands before the elements of a slice, and that an array does without.
use binary.Prelude.{ℕ, ◌*◌, ◌/◌, ◌≤◌, ◌≡◌, length, List, []}
use binary.Base.{ok, M, pure}
use binary.Varint.{uvarint_bytes}
use binary.Encoder.{Encoder, write, write_uvarint}
use binary.Encoder.Laws.{write-nil, write_uvarint_lem}
use binary.Stream.{max_int}
use binary.Decoder.{max_alloc}
use binary.Codec.{Shape, slice_of, array_of}
use binary.Codec.Loops.{emit}

unfoldable pub count_bytes : Shape → ℕ → List ℕ
count_bytes (slice_of size) n = uvarint_bytes n
count_bytes (array_of m) n = []

unfoldable pub write_count : Shape → ℕ → M Encoder (Unit {0})
write_count (slice_of size) n = emit (write_uvarint n)
write_count (array_of m) n = pure tt

pub write_count_lem :
    (sh : Shape) (n : ℕ) (e : Encoder) → write_count sh n e ≡ (ok tt, write (count_bytes sh n) e)
unfolding write_count count_bytes
write_count_lem (slice_of size) n e = rw write_uvarint_lem
write_count_lem (array_of m) n e = rw write-nil

-- A slice that can be in memory, and an array of its length.
abbrev pub FitsShape : {A : Type 0} → Shape → List A → Type 0
FitsShape (slice_of size) xs = (length xs ≤ max_int / 2) × (length xs * size ≤ max_alloc)
FitsShape (array_of n) xs = length xs ≡ n
