-- ===== src/Unsafe/Laws.antt =====
-- unsafe/types.go: slices of integers and floats against their wire format, and counts that are too large.
use binary.Prelude.{ℕ, zero, suc, ◌*◌, ◌/◌, ◌≤◌, ◌<◌, ◌≡◌, refl, arith, length, ◌==◌}
use binary.Prelude.{
  List, [], ◌∷◌, ◌++◌, append_assoc, append-nil, false, suc-eq-zero, le→ltb_false, lt→ltb,
}
use native.Mathlib.Nat.{le-div_iff_mul-le, div-le_self}
use binary.Base.{wire_each, ok, panic}
use binary.Encoder.{Encoder, write, little_endian}
use binary.Encoder.Laws.{write-write, write_uint_lem}
use binary.Stream.{max_int}
use binary.Stream.Laws.{read_full-source}
use binary.Decoder.{max_alloc}
use binary.Decoder.Laws.{Origin, in_memory, streaming, holding, read_uint-holding}
use binary.Decoder.Checks.{decode_length_fits}
use binary.Codec.Loops.{Encodes, Decodes}
use binary.Codec.Custom.Laws.{read_whole-holding}
use binary.Memory.{Layout, memory_of, length-memory_of, elements_of-memory_of, AreElements}
use binary.Unsafe.{make_elements, read_elements, encode_elements, counted_body, decode_elements}

read_elements-holding :
    (k : Origin) (b front rest : List ℕ)
    → read_elements (length b) (holding k front (b ++ rest)) ≡ (ok b, holding k (front ++ b) rest)
unfolding read_elements holding
read_elements-holding in_memory b front rest = read_whole-holding b front rest
read_elements-holding (streaming e) b front rest = rw (read_full-source e front b rest)

module _ (layout : Layout) where
  pub wire_elements : List ℕ → List ℕ
  wire_elements v = little_endian 8 (length v) ++ memory_of layout v

  pub encode_elements-Encodes : (v : List ℕ) → Encodes (encode_elements layout) wire_elements v
  unfolding encode_elements wire_elements
  encode_elements-Encodes v e = rw ((write_uint_lem (length v) e).2, write-write)

  counted_body-holding :
      (v : List ℕ)
      → AreElements layout v
      → length v * layout.size ≤ max_alloc
      → length v ≤ max_int
      → (k : Origin) (front rest : List ℕ)
      → counted_body layout (length v) (holding k front (memory_of layout v ++ rest))
        ≡ (ok v, holding k (front ++ memory_of layout v) rest)
  unfolding counted_body make_elements
  counted_body-holding v h small few k front rest =
      let size = length-memory_of layout v in
      let state = holding k front (memory_of layout v ++ rest) in
      let within = (le-div_iff_mul-le layout.positive).1 (omega (arith, small)) in
      rw (
        decode_length_fits (length v) state few,
        le→ltb_false (max_int / layout.size) (length v) within,
        le→ltb_false max_alloc (length v * layout.size) small,
        rw size at (read_elements-holding k (memory_of layout v) front rest),
        elements_of-memory_of layout v h,
      )

  decode_elements-Decodes :
      (v : List ℕ)
      → AreElements layout v
      → length v * layout.size ≤ max_alloc
      → length v ≤ max_int
      → Decodes (decode_elements layout) wire_elements v
  unfolding decode_elements wire_elements memory_of wire_each
  decode_elements-Decodes [] h small few k front rest =
      let nothing : memory_of layout [] ≡ [] = refl in
      rw (nothing, append-nil, (read_uint-holding k 0 front rest).2 (omega arith)) refl
  decode_elements-Decodes (x ∷ v) h small few k front rest =
      let n = length (x ∷ v) in
      rw (
        append_assoc,
        (read_uint-holding k n front (memory_of layout (x ∷ v) ++ rest)).2 (omega (arith, few)),
        suc-eq-zero (length v),
        counted_body-holding (x ∷ v) h small few k (front ++ little_endian 8 n) rest,
        append_assoc,
      )

  within_int : (n : ℕ) → n * layout.size ≤ max_alloc → n ≤ max_int
  within_int n h =
      let few = (le-div_iff_mul-le layout.positive).1 h in
      omega (arith, few, div-le_self max_alloc layout.size)

  -- A slice of integers or floats that can be in memory: EncodeTo writes its number of elements and its
  -- memory, and DecodeTo of that, in memory or from a stream, gives the slice back and stops right behind it.
  pub decode_elements-encode_elements :
      (v : List ℕ) (e : Encoder) (k : Origin) (front rest : List ℕ)
      → AreElements layout v
      → length v * layout.size ≤ max_alloc
      → (encode_elements layout v e ≡ (ok tt, write (wire_elements v) e))
        × (decode_elements layout (holding k front (wire_elements v ++ rest))
            ≡ (ok v, holding k (front ++ wire_elements v) rest))
  decode_elements-encode_elements v e k front rest h small = (
    encode_elements-Encodes v e,
    decode_elements-Decodes v h small (within_int (length v) small) k front rest,
  )

  not_zero : (n : ℕ) → max_alloc < n * layout.size → (n == 0) ≡ false
  not_zero zero h = absurd (omega arith)
  not_zero (suc n) h = suc-eq-zero n

  -- A count of elements whose memory would be more than the Go runtime allocates at once, but whose size
  -- an int still holds, is not refused: DecodeTo panics, in memory or from a stream, whatever follows.
  pub decode_elements-panics :
      (n : ℕ) (k : Origin) (front rest : List ℕ)
      → n ≤ max_int / layout.size
      → max_alloc < n * layout.size
      → (decode_elements layout (holding k front (little_endian 8 n ++ rest))).0 ≡ panic
  unfolding decode_elements counted_body make_elements
  decode_elements-panics n k front rest h large =
      let few : n ≤ max_int = omega (arith, h, div-le_self max_int layout.size) in
      rw (
        (read_uint-holding k n front rest).2 (omega (arith, few)),
        not_zero n large,
        decode_length_fits n (holding k (front ++ little_endian 8 n) rest) few,
        le→ltb_false (max_int / layout.size) n h,
        lt→ltb max_alloc (n * layout.size) large,
      )
