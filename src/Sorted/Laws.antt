-- ===== src/Sorted/Laws.antt =====
-- sorted/codecs.go: the delta codecs against their wire format.
use binary.Prelude.{ℕ, ◌/◌, ◌%◌, ◌^◌, ◌*◌, ◌≤◌, ◌≡◌, ◌≢◌, refl, arith, length, All}
use binary.Prelude.{List, [], ◌∷◌, ◌++◌, append_assoc, append-nil, suc-eq-zero, leb}
use binary.Prelude.Int.{ℤ, pos, word, signed}
use binary.Base.{ok, panic, M, IsU64}
use binary.Varint.{uvarint_bytes, fold_sign}
use binary.Varint.Shape.{length-uvarint_bytes, varint_bytes-eq-uvarint_bytes}
use binary.Encoder.{Encoder, write}
use binary.Encoder.Laws.{write-write, write_uvarint_lem}
use binary.Stream.{max_int}
use binary.Decoder.Laws.{Origin, holding, slice-holding}
use binary.Decoder.Checks.{read_count-holding}
use binary.Sorted.Order.{sort-All, length-sort}
use binary.Sorted.Deltas.{no_panic}
use binary.Prelude.{length-append}
use binary.Sorted.{sub64, add64, add_code}
use binary.Sorted.{append_uint_deltas, append_int_deltas, decode_slice, sort, leb_int}
use binary.Sorted.{encode_uints, decode_uints, encode_ints, decode_ints, count_varints}
use binary.Sorted.{decode_uint_deltas, decode_int_deltas}
use binary.Sorted.Deltas.{decode_deltas-append_uint_deltas, decode_deltas-append_int_deltas}
use binary.Sorted.Deltas.{count-append_uint_deltas, count-append_int_deltas}

-- A length and that many bytes.
abbrev pub framed : List ℕ → List ℕ
framed b = uvarint_bytes (length b) ++ b

no_elements : {T : Type 0} (xs : List T) → count_varints [] ≡ length xs → xs ≡ []
unfolding count_varints
no_elements [] h = refl
no_elements (x ∷ xs) h = absurd (omega arith)

-- The frame is read back, and what is in it is given to the loop over the differences.
decode_slice-framed :
    {T : Type 0} (deltas : ℕ → M (List ℕ) (List T)) (k : Origin) (b front rest : List ℕ)
    (xs : List T)
    → length b ≤ max_int / 2
    → deltas (count_varints b) b ≡ (ok xs, [])
    → count_varints b ≡ length xs
    → decode_slice deltas (holding k front (framed b ++ rest))
      ≡ (ok xs, holding k (front ++ framed b) rest)
unfolding decode_slice
decode_slice-framed deltas k [] front rest xs h e count = rw (
  append_assoc,
  read_count-holding k 0 front rest (omega arith),
  no_elements xs count,
  append-nil,
)
decode_slice-framed deltas k (c ∷ b) front rest xs h e count =
    let front' = front ++ uvarint_bytes (length (c ∷ b)) in
    rw (
      append_assoc,
      read_count-holding k (length (c ∷ b)) front (c ∷ (b ++ rest)) (omega arith),
      suc-eq-zero (length b),
      slice-holding k (c ∷ b) front' rest h,
      e,
      append_assoc,
    )

-- Encoding a slice of unsigned numbers leaves the encoder as one write of its bytes does: the
-- length of the differences of the sorted slice, and the differences.
pub encode_uints_lem :
    (xs : List ℕ) (e : Encoder)
    → encode_uints xs e ≡ (ok tt, write (framed (append_uint_deltas 0 (sort leb xs))) e)
unfolding encode_uints
encode_uints_lem xs e = rw (write_uvarint_lem, write-write)

pub encode_ints_lem :
    (xs : List ℤ) (e : Encoder)
    → encode_ints xs e ≡ (ok tt, write (framed (append_int_deltas (pos 0) (sort leb_int xs))) e)
unfolding encode_ints
encode_ints_lem xs e = rw (write_uvarint_lem, write-write)

pub decode_uints_lem :
    (w : ℕ) (xs : List ℕ) (k : Origin) (front rest : List ℕ)
    → All (λ x. IsU64 x × (x % 2 ^ w ≡ x)) xs
    → length (append_uint_deltas 0 xs) ≤ max_int / 2
    → decode_uints w (holding k front (framed (append_uint_deltas 0 xs) ++ rest))
      ≡ (ok xs, holding k (front ++ framed (append_uint_deltas 0 xs)) rest)
unfolding decode_uints decode_uint_deltas
decode_uints_lem w xs k front rest h g =
    let count = count-append_uint_deltas 0 xs in
    decode_slice-framed (decode_uint_deltas w) k (append_uint_deltas 0 xs) front rest xs g
      (rw count (decode_deltas-append_uint_deltas w 0 xs (omega arith) h)) count

pub decode_ints_lem :
    (w : ℕ) (xs : List ℤ) (k : Origin) (front rest : List ℕ)
    → All (λ x. signed w (word 64 x % 2 ^ w) ≡ x) xs
    → length (append_int_deltas (pos 0) xs) ≤ max_int / 2
    → decode_ints w (holding k front (framed (append_int_deltas (pos 0) xs) ++ rest))
      ≡ (ok xs, holding k (front ++ framed (append_int_deltas (pos 0) xs)) rest)
unfolding decode_ints decode_int_deltas
decode_ints_lem w xs k front rest h g =
    let count = count-append_int_deltas (pos 0) xs in
    decode_slice-framed (decode_int_deltas w) k (append_int_deltas (pos 0) xs) front rest xs g
      (rw count (decode_deltas-append_int_deltas w (pos 0) xs h)) count

-- A difference takes ten bytes at most.
pub length-uint_deltas_le :
    (prev : ℕ) (xs : List ℕ) → length (append_uint_deltas prev xs) ≤ 10 * length xs
unfolding append_uint_deltas
length-uint_deltas_le prev [] = omega arith
length-uint_deltas_le prev (x ∷ xs) =
    rw length-append
      (omega (arith, length-uvarint_bytes (sub64 x prev), length-uint_deltas_le x xs))

length-int_deltas_le :
    (prev : ℤ) (xs : List ℤ) → length (append_int_deltas prev xs) ≤ 10 * length xs
unfolding append_int_deltas
length-int_deltas_le prev [] = omega arith
length-int_deltas_le prev (x ∷ xs) =
    let code : ℕ = fold_sign (signed 64 (sub64 (word 64 x) (word 64 prev))) in
    rw (length-append, varint_bytes-eq-uvarint_bytes)
      (omega (arith, length-uvarint_bytes code, length-int_deltas_le x xs))

-- For a slice of unsigned numbers that fit `w` bits and a uint64, in any order, EncodeTo writes bytes
-- from which DecodeTo for elements of `w` bits, in memory and from a stream and whatever follows,
-- makes the sorted slice, and stops right behind them. Ten bytes an element are at most half of what
-- an int counts.
pub decode_uints-encode_uints :
    (w : ℕ) (xs : List ℕ) (k : Origin) (front rest : List ℕ)
    → All (λ x. IsU64 x × (x % 2 ^ w ≡ x)) xs
    → 10 * length xs ≤ max_int / 2
    → (bytes : List ℕ) × ((e : Encoder) → encode_uints xs e ≡ (ok tt, write bytes e))
      × (decode_uints w (holding k front (bytes ++ rest))
          ≡ (ok (sort leb xs), holding k (front ++ bytes) rest))
decode_uints-encode_uints w xs k front rest h g = (
  framed (append_uint_deltas 0 (sort leb xs)),
  encode_uints_lem xs,
  decode_uints_lem w (sort leb xs) k front rest (sort-All leb _ xs h)
      (omega (arith, length-sort leb xs, length-uint_deltas_le 0 (sort leb xs))),
)

-- For a slice of signed numbers that the conversion to `w` bits keeps, in any order, EncodeTo writes
-- bytes from which DecodeTo, in memory and from a stream and whatever follows, makes the sorted
-- slice, and stops right behind them. Ten bytes an element are at most half of what an int counts.
pub decode_ints-encode_ints :
    (w : ℕ) (xs : List ℤ) (k : Origin) (front rest : List ℕ)
    → All (λ x. signed w (word 64 x % 2 ^ w) ≡ x) xs
    → 10 * length xs ≤ max_int / 2
    → (bytes : List ℕ) × ((e : Encoder) → encode_ints xs e ≡ (ok tt, write bytes e))
      × (decode_ints w (holding k front (bytes ++ rest))
          ≡ (ok (sort leb_int xs), holding k (front ++ bytes) rest))
decode_ints-encode_ints w xs k front rest h g = (
  framed (append_int_deltas (pos 0) (sort leb_int xs)),
  encode_ints_lem xs,
  decode_ints_lem w (sort leb_int xs) k front rest (sort-All leb_int _ xs h)
      (omega (arith, length-sort leb_int xs, length-int_deltas_le (pos 0) (sort leb_int xs))),
)

-- The slice that DecodeTo makes has room for every difference, on any bytes: its loops over the
-- differences return and never write past the end.
pub decode_deltas-returns :
    (w : ℕ) (b : List ℕ)
    → ((decode_uint_deltas w (count_varints b) b).0 ≢ panic)
      × ((decode_int_deltas w (count_varints b) b).0 ≢ panic)
unfolding decode_uint_deltas decode_int_deltas
decode_deltas-returns w b = (
  no_panic add64 (λ x. x % 2 ^ w) 0 (count_varints b) 0 b (omega arith),
  no_panic add_code (λ x. signed w (x % 2 ^ w)) (pos 0) (count_varints b) 0 b (omega arith),
)
