-- ===== src/Sorted/Timestamps.antt =====
-- sorted/codecs.go: `timestampCodec` against its wire format.
use binary.Prelude.{ℕ, ◌/◌, ◌*◌, ◌≤◌, ◌≡◌, arith, length, All}
use binary.Prelude.{List, [], ◌∷◌, ◌++◌, append_assoc, append-nil, leb}
use binary.Prelude.{if◌then◌else◌, le→ltb_false}
use binary.Base.{ok, IsU64}
use binary.Varint.{uvarint_bytes}
use binary.Varint.Shape.{length-uvarint_bytes}
use binary.Encoder.{Encoder, write}
use binary.Encoder.Laws.{write-write, write_uvarint_lem}
use binary.Stream.{max_int}
use binary.Decoder.Laws.{Origin, holding, slice-holding}
use binary.Decoder.Checks.{read_count-holding}
use binary.Sorted.Order.{sort-All, length-sort}
use binary.Prelude.{Bool-cases, inl, inr, length-append}
use binary.Sorted.{sub64}
use binary.Sorted.{append_uint_deltas, sort}
use binary.Sorted.{is_sorted}
use binary.Sorted.{encode_timestamps, decode_timestamps}
use binary.Sorted.Deltas.{read_delta-append_uint_deltas}
use binary.Sorted.Laws.{framed, length-uint_deltas_le}

abbrev pub in_order : List ℕ → List ℕ
in_order xs = if is_sorted xs then xs else sort leb xs

abbrev wire_timestamps : List ℕ → List ℕ
wire_timestamps xs = uvarint_bytes (length xs) ++ framed (append_uint_deltas 0 xs)

pub length-append_uint_deltas :
    (prev : ℕ) (xs : List ℕ) → length xs ≤ length (append_uint_deltas prev xs)
unfolding append_uint_deltas
length-append_uint_deltas prev [] = omega arith
length-append_uint_deltas prev (x ∷ xs) =
    rw length-append
      (omega (arith, length-uvarint_bytes (sub64 x prev), length-append_uint_deltas x xs))

length-in_order : (xs : List ℕ) → length (in_order xs) ≡ length xs
length-in_order xs = ground (arith, length-sort leb xs)

encode_timestamps_lem :
    (xs : List ℕ) (e : Encoder)
    → encode_timestamps xs e ≡ (ok tt, write (wire_timestamps (in_order xs)) e)
unfolding encode_timestamps
encode_timestamps_lem xs e = rw (write_uvarint_lem, write_uvarint_lem, write-write, write-write)

decode_timestamps_lem :
    (xs : List ℕ) (k : Origin) (front rest : List ℕ)
    → All IsU64 xs
    → length (append_uint_deltas 0 xs) ≤ max_int / 2
    → decode_timestamps (holding k front (wire_timestamps xs ++ rest))
      ≡ (ok xs, holding k (front ++ wire_timestamps xs) rest)
unfolding decode_timestamps
decode_timestamps_lem xs k front rest h g =
    let b : List ℕ = append_uint_deltas 0 xs in
    let front' : List ℕ = front ++ uvarint_bytes (length xs) in
    let enough = length-append_uint_deltas 0 xs in
    let deltas = read_delta-append_uint_deltas 0 xs [] (omega arith) h in
    rw (
      append_assoc,
      append_assoc,
      read_count-holding k (length xs) front (uvarint_bytes (length b) ++ (b ++ rest))
          (omega arith),
      read_count-holding k (length b) front' (b ++ rest) (omega arith),
      le→ltb_false (length b) (length xs) enough,
      slice-holding k b (front' ++ uvarint_bytes (length b)) rest g,
      rw append-nil at deltas,
      append_assoc,
      append_assoc,
    )

in_order-All : (P : ℕ → Type 0) (xs : List ℕ) → All P xs → All P (in_order xs)
in_order-All P xs h = elim (Bool-cases (is_sorted xs)) [
  | inl e ↦ rw e h
  | inr e ↦ rw e (sort-All leb _ xs h)
]

-- For timestamps in any order, EncodeTo writes bytes from which DecodeTo makes the timestamps in
-- order (as they are, where isSorted accepts them), in memory and from a stream, and stops right
-- behind them. They are uint64, and ten bytes for each are at most half of what an int counts.
pub decode_timestamps-encode_timestamps :
    (xs : List ℕ) (k : Origin) (front rest : List ℕ)
    → All IsU64 xs
    → 10 * length xs ≤ max_int / 2
    → (bytes : List ℕ) × ((e : Encoder) → encode_timestamps xs e ≡ (ok tt, write bytes e))
      × (decode_timestamps (holding k front (bytes ++ rest))
          ≡ (ok (in_order xs), holding k (front ++ bytes) rest))
decode_timestamps-encode_timestamps xs k front rest h g = (
  wire_timestamps (in_order xs),
  encode_timestamps_lem xs,
  decode_timestamps_lem (in_order xs) k front rest (in_order-All _ xs h)
      (omega (arith, length-in_order xs, length-uint_deltas_le 0 (in_order xs))),
)
