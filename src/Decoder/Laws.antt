-- ===== src/Decoder/Laws.antt =====
-- decoder.go: each Read method on bytes that the matching Write method wrote.
use binary.Prelude.{ℕ, zero, suc, ◌+◌, ◌/◌, ◌^◌, ◌≤◌, ◌<◌, ◌≡◌, refl, ap, arith}
use binary.Prelude.{List, [], ◌∷◌, ◌++◌, length, Bool, true, false, append_assoc, length-append}
use binary.Decoder.{read_uint16, read_uint32, read_uint64}
use binary.Decoder.{read_string, read_float32, read_float64}
use binary.Prelude.{take, drop, take-append, drop-append, le→ltb_false}
use native.Mathlib.Nat.{pow-suc}
use binary.Prelude.Int.{ℤ, pos, InRange}
use binary.Base.{Error, ok, IsU64}
use binary.Varint.{uvarint_bytes, varint_bytes}
use binary.Encoder.{little_endian, bool_byte}
use binary.Reader.View.{at, read_byte-at, slice-at}
use binary.Reader.Uvarint.{read_uvarint-at, read_varint-at}
use binary.Stream.{max_int}
use binary.Stream.Laws.{
  source, read_uvarint-source, read_varint-source, read_byte-source, slice-source,
}
use binary.Decoder.{
  Decoder, memory, stream, read_uvarint, read_varint, read_byte, slice, read_fixed,
}
use binary.Decoder.{from_little_endian, read_uint32, read_uint64, read_bool}
use binary.Decoder.{read_slice_of, read_slice, read_tagged, read_complex64, read_complex128}

-- Where the bytes come from.
pub data Origin : Type 0 where
  in_memory : Origin
  streaming : Error → Origin

-- A decoder that has read `front` and has `rest` before it.
unfoldable pub holding : Origin → List ℕ → List ℕ → Decoder
holding in_memory front rest = memory (at front rest)
holding (streaming failure) front rest = stream (source failure front rest)

-- In memory and from a stream, ReadUvarint reads a uint64 that WriteUvarint wrote, whatever has been
-- read before it and whatever follows it, and stops right behind it.
pub read_uvarint-holding :
    (k : Origin) (x : ℕ) (front rest : List ℕ)
    → IsU64 x
    → read_uvarint (holding k front (uvarint_bytes x ++ rest))
      ≡ (ok x, holding k (front ++ uvarint_bytes x) rest)
unfolding read_uvarint holding
read_uvarint-holding in_memory x front rest h = rw (read_uvarint-at x front rest h)
read_uvarint-holding (streaming e) x front rest h = rw (read_uvarint-source e x front rest h)

pub read_varint-holding :
    (k : Origin) (v : ℤ) (front rest : List ℕ)
    → InRange 64 v
    → read_varint (holding k front (varint_bytes v ++ rest))
      ≡ (ok v, holding k (front ++ varint_bytes v) rest)
unfolding read_varint holding
read_varint-holding in_memory v front rest h = rw (read_varint-at v front rest h)
read_varint-holding (streaming e) v front rest h = rw (read_varint-source e v front rest h)

pub read_byte-holding :
    (k : Origin) (b : ℕ) (front rest : List ℕ)
    → read_byte (holding k front (b ∷ rest)) ≡ (ok b, holding k (front ++ (b ∷ [])) rest)
unfolding read_byte holding
read_byte-holding in_memory b front rest = rw (read_byte-at front rest b)
read_byte-holding (streaming e) b front rest = rw (read_byte-source e b front rest)

pub slice-holding :
    (k : Origin) (bytes front rest : List ℕ)
    → length bytes ≤ max_int / 2
    → slice (pos (length bytes)) (holding k front (bytes ++ rest))
      ≡ (ok bytes, holding k (front ++ bytes) rest)
unfolding slice holding
slice-holding in_memory bytes front rest h = rw (slice-at front bytes rest)
slice-holding (streaming e) bytes front rest h = rw (slice-source e front bytes rest h)

pub length-little_endian : (n x : ℕ) → length (little_endian n x) ≡ n
unfolding little_endian
length-little_endian zero x = refl
length-little_endian (suc n) x = ap suc (length-little_endian n (x / 2 ^ 8))

-- `n` bytes hold the numbers below 256^n.
pub from_little_endian-little_endian :
    (n x : ℕ) → x < 256 ^ n → from_little_endian (little_endian n x) ≡ x
unfolding little_endian from_little_endian
from_little_endian-little_endian zero x h = omega arith
from_little_endian-little_endian (suc n) x h =
    omega (arith, from_little_endian-little_endian n (x / 2 ^ 8) (omega (arith, pow-suc 256 n)))

-- In memory and from a stream, a number of up to 8 bytes that was written in little-endian order is
-- read back, and the decoder stops right behind it.
pub read_fixed-holding :
    (k : Origin) (n x : ℕ) (front rest : List ℕ)
    → n ≤ 8
    → x < 256 ^ n
    → read_fixed n (holding k front (little_endian n x ++ rest))
      ≡ (ok x, holding k (front ++ little_endian n x) rest)
unfolding read_fixed
read_fixed-holding k n x front rest small h =
    let size = length-little_endian n x in
    let bytes = slice-holding k (little_endian n x) front rest (rw size (omega arith)) in
    rw (rw size at bytes) (rw (from_little_endian-little_endian n x h))

pub read_bool-holding :
    (k : Origin) (b : Bool) (front rest : List ℕ)
    → read_bool (holding k front (bool_byte b ++ rest))
      ≡ (ok b, holding k (front ++ bool_byte b) rest)
unfolding read_bool bool_byte
read_bool-holding k true front rest = rw (read_byte-holding k 1 front rest)
read_bool-holding k false front rest = rw (read_byte-holding k 0 front rest)

-- A length and that many bytes: strings, byte slices and the body of a tagged value.
pub read_slice-holding :
    (k : Origin) (bytes front rest : List ℕ)
    → length bytes ≤ max_int / 2
    → read_slice (holding k front (uvarint_bytes (length bytes) ++ (bytes ++ rest)))
      ≡ (ok bytes, holding k ((front ++ uvarint_bytes (length bytes)) ++ bytes) rest)
unfolding read_slice read_slice_of
read_slice-holding k bytes front rest h =
    rw
      (
        read_uvarint-holding k (length bytes) front (bytes ++ rest) (omega arith),
        le→ltb_false max_int (length bytes) (omega arith),
      )
      (slice-holding k bytes (front ++ uvarint_bytes (length bytes)) rest h)

-- In memory and from a stream, a tag and a body that were written as a tagged value are read back,
-- an empty body included, and the decoder stops right behind them. The tag is a uint64, and the body
-- has at most half the bytes that an int counts.
pub read_tagged-holding :
    (k : Origin) (tag : ℕ) (body front rest : List ℕ)
    → IsU64 tag
    → length body ≤ max_int / 2
    → (let bytes : List ℕ = uvarint_bytes tag ++ (uvarint_bytes (length body) ++ body) in
        read_tagged (holding k front (bytes ++ rest))
        ≡ (ok (tag, body), holding k (front ++ bytes) rest))
unfolding read_tagged
read_tagged-holding k tag body front rest h g =
    let front' = front ++ uvarint_bytes tag in
    rw (
      append_assoc,
      append_assoc,
      read_uvarint-holding k tag front (uvarint_bytes (length body) ++ (body ++ rest)) h,
      read_slice-holding k body front' rest g,
      append_assoc,
      append_assoc,
    )

pub read_string_lem : (d : Decoder) → read_string d ≡ read_slice d
unfolding read_string
read_string_lem d = refl

pub read_float_lem :
    (d : Decoder) → (read_float32 d ≡ read_fixed 4 d) × (read_float64 d ≡ read_fixed 8 d)
unfolding read_float32 read_float64 read_uint32 read_uint64
read_float_lem d = (refl, refl)

-- Two numbers of `n` bytes each, read as one slice.
module _ (k : Origin) (n re im : ℕ) (front rest : List ℕ) where
  abbrev pub pair_bytes : List ℕ
  pair_bytes = little_endian n re ++ little_endian n im

  length-pair_bytes : length pair_bytes ≡ n + n
  length-pair_bytes = rw (length-append, length-little_endian, length-little_endian)

  slice-pair :
      n ≤ 8
      → slice (pos (n + n)) (holding k front (pair_bytes ++ rest))
        ≡ (ok pair_bytes, holding k (front ++ pair_bytes) rest)
  slice-pair h =
      let bytes = slice-holding k pair_bytes front rest (rw length-pair_bytes (omega arith)) in
      rw length-pair_bytes at bytes

  pub take-pair : take n pair_bytes ≡ little_endian n re
  take-pair = rw length-little_endian at (take-append (little_endian n re) (little_endian n im))

  pub drop-pair : drop n pair_bytes ≡ little_endian n im
  drop-pair = rw length-little_endian at (drop-append (little_endian n re) (little_endian n im))

module _ (k : Origin) (re im : ℕ) (front rest : List ℕ) where
  pub read_complex64-holding :
      re < 2 ^ 32
      → im < 2 ^ 32
      → read_complex64 (holding k front ((little_endian 4 re ++ little_endian 4 im) ++ rest))
        ≡ (ok (re, im), holding k (front ++ (little_endian 4 re ++ little_endian 4 im)) rest)
  unfolding read_complex64
  read_complex64-holding h g = rw (
    slice-pair k 4 re im front rest (omega arith),
    take-pair k 4 re im front rest,
    drop-pair k 4 re im front rest,
    from_little_endian-little_endian 4 re h,
    from_little_endian-little_endian 4 im g,
  )

  pub read_complex128-holding :
      re < 2 ^ 64
      → im < 2 ^ 64
      → read_complex128 (holding k front ((little_endian 8 re ++ little_endian 8 im) ++ rest))
        ≡ (ok (re, im), holding k (front ++ (little_endian 8 re ++ little_endian 8 im)) rest)
  unfolding read_complex128
  read_complex128-holding h g = rw (
    slice-pair k 8 re im front rest (omega arith),
    take-pair k 8 re im front rest,
    drop-pair k 8 re im front rest,
    from_little_endian-little_endian 8 re h,
    from_little_endian-little_endian 8 im g,
  )

pub read_uint_lem :
    (d : Decoder)
    → (read_uint16 d ≡ read_fixed 2 d)
      × (read_uint32 d ≡ read_fixed 4 d)
      × (read_uint64 d ≡ read_fixed 8 d)
unfolding read_uint16 read_uint32 read_uint64
read_uint_lem d = (refl, refl, refl)

-- A count in a fixed number of bytes.
pub read_uint-holding :
    (k : Origin) (x : ℕ) (front rest : List ℕ)
    → (x < 2 ^ 16
        → read_uint16 (holding k front (little_endian 2 x ++ rest))
          ≡ (ok x, holding k (front ++ little_endian 2 x) rest))
      × (x < 2 ^ 32
          → read_uint32 (holding k front (little_endian 4 x ++ rest))
            ≡ (ok x, holding k (front ++ little_endian 4 x) rest))
      × (x < 2 ^ 64
          → read_uint64 (holding k front (little_endian 8 x ++ rest))
            ≡ (ok x, holding k (front ++ little_endian 8 x) rest))
read_uint-holding k x front rest = (
  (λ h. rw (read_uint_lem _).0 (read_fixed-holding k 2 x front rest (omega arith) h)),
  (λ h. rw (read_uint_lem _).1 (read_fixed-holding k 4 x front rest (omega arith) h)),
  (λ h. rw (read_uint_lem _).2 (read_fixed-holding k 8 x front rest (omega arith) h)),
)
