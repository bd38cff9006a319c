-- ===== src/Nocopy/Laws.antt =====
-- nocopy/types.go: slices against their wire format, and against the codecs that copy.
use binary.Prelude.{ℕ, zero, suc, ◌*◌, ◌/◌, ◌%◌, ◌≤◌, ◌<◌, ◌≡◌, refl, arith, length, ◌==◌}
use binary.Prelude.{List, [], ◌∷◌, ◌++◌, append_assoc, append-nil, true, false, suc-eq-zero}
use native.Mathlib.Nat.{mul-mod_left, mul-div_cancel, zero-mod}
use binary.Base.{unexpected_eof, wire_each, ok, err}
use binary.Encoder.{Encoder, write, little_endian}
use binary.Encoder.Laws.{write-write, write_uint_lem}
use binary.Stream.{max_int}
use binary.Decoder.Laws.{Origin, holding, read_uint-holding, slice-holding}
use binary.Decoder.Checks.{decode_length_fits}
use binary.Codec.Loops.{Encodes, Decodes}
use binary.Memory.{Layout, memory_of, length-memory_of, elements_of-memory_of, AreElements}
use binary.Nocopy.{encode_integers, integers_body, decode_integers}

module _ (layout : Layout) where
  pub wire_integers : List ℕ → List ℕ
  wire_integers v = little_endian 8 (length v * layout.size) ++ memory_of layout v

  encode_integers-Encodes : (v : List ℕ) → Encodes (encode_integers layout) wire_integers v
  unfolding encode_integers wire_integers
  encode_integers-Encodes v e = rw ((write_uint_lem (length v * layout.size) e).2, write-write)

  integers_body-holding :
      (v : List ℕ)
      → AreElements layout v
      → length v * layout.size ≤ max_int / 2
      → (k : Origin) (front rest : List ℕ)
      → integers_body layout (length v * layout.size) (holding k front (memory_of layout v ++ rest))
        ≡ (ok v, holding k (front ++ memory_of layout v) rest)
  unfolding integers_body
  integers_body-holding v h small k front rest =
      let size = length-memory_of layout v in
      let bytes = slice-holding k (memory_of layout v) front rest (rw size small) in
      rw (
        decode_length_fits (length v * layout.size) (holding k front (memory_of layout v ++ rest))
            (omega (arith, small)),
        mul-mod_left (length v) layout.size,
        rw size at bytes,
        mul-div_cancel (length v) layout.positive,
        elements_of-memory_of layout v h,
      )

  some_bytes : (n : ℕ) → (suc n * layout.size == 0) ≡ false
  some_bytes n = not_zero (suc n * layout.size) (omega (arith, layout.positive))
    where
      not_zero : (m : ℕ) → 0 < m → (m == 0) ≡ false
      not_zero m h = ground arith

  decode_integers-Decodes :
      (v : List ℕ)
      → AreElements layout v
      → length v * layout.size ≤ max_int / 2
      → Decodes (decode_integers layout) wire_integers v
  unfolding decode_integers wire_integers memory_of wire_each
  decode_integers-Decodes [] h small k front rest =
      let none_needed : 0 * layout.size ≡ 0 = omega arith in
      let nothing : memory_of layout [] ≡ [] = refl in
      rw (nothing, append-nil, none_needed, (read_uint-holding k 0 front rest).2 (omega arith)) refl
  decode_integers-Decodes (x ∷ v) h small k front rest =
      let total = length (x ∷ v) * layout.size in
      let front' = front ++ little_endian 8 total in
      rw (
        append_assoc,
        (read_uint-holding k total front (memory_of layout (x ∷ v) ++ rest)).2
            (omega (arith, small)),
        some_bytes (length v),
        integers_body-holding (x ∷ v) h small k front' rest,
        append_assoc,
      )

  -- A slice of integers or floats whose memory is at most half of what an int counts: EncodeTo writes the
  -- number of its bytes and its memory, and DecodeTo of that, in memory or from a stream, gives the slice
  -- back and stops right behind it.
  pub decode_integers-encode_integers :
      (v : List ℕ) (e : Encoder) (k : Origin) (front rest : List ℕ)
      → AreElements layout v
      → length v * layout.size ≤ max_int / 2
      → (encode_integers layout v e ≡ (ok tt, write (wire_integers v) e))
        × (decode_integers layout (holding k front (wire_integers v ++ rest))
            ≡ (ok v, holding k (front ++ wire_integers v) rest))
  decode_integers-encode_integers v e k front rest h small =
      (encode_integers-Encodes v e, decode_integers-Decodes v h small k front rest)

true-not_false : true ≡ false → ⊥
true-not_false e = cc

-- Bytes that are no whole number of elements are refused.
decode_integers-odd :
    (layout : Layout) (l : ℕ) (k : Origin) (front rest : List ℕ)
    → (l % layout.size == 0) ≡ false
    → l ≤ max_int
    → decode_integers layout (holding k front (little_endian 8 l ++ rest))
      ≡ (err unexpected_eof, holding k (front ++ little_endian 8 l) rest)
unfolding decode_integers integers_body
decode_integers-odd layout zero k front rest odd fits =
    let none_over : 0 % layout.size ≡ 0 = zero-mod layout.size in
    absurd (true-not_false (rw none_over at odd))
decode_integers-odd layout (suc l) k front rest odd fits = rw (
  (read_uint-holding k (suc l) front rest).2 (omega (arith, fits)),
  suc-eq-zero l,
  decode_length_fits (suc l) (holding k (front ++ little_endian 8 (suc l)) rest) fits,
  odd,
)
