-- ===== src/Nocopy/Copies.antt =====
-- nocopy/types.go against codecs.go: the codecs without a copy and the ones that copy.
use binary.Prelude.{
  ℕ, zero, suc, ◌≤◌, ◌<◌, ◌≡◌, refl, sym, ◌∙◌, arith, length, take, drop, List, [], ◌++◌,
  Bool-cases, inl, inr, suc-eq-zero, ltb, ltb_false→le, length-take, append-take-drop, length-drop,
}
use mathlib.Core.Path.{subst}
use binary.Prelude.Int.{pos}
use binary.Base.{M, next-ext}
use binary.Encoder.{Encoder}
use binary.Stream.{StreamReader}
use binary.Reader.{SliceReader}
use binary.Reader.View.{at-take-drop}
use binary.Reader.Safety.{IsValid}
use binary.Decoder.{Decoder, memory, stream, slice, read_count, max_alloc, by_source}
use binary.Decoder.Safety.{IsSound, Steps}
use binary.Decoder.Safety.Calls.{read_count-Safe}
use binary.Decoder.Windows.{Steps-next}
use binary.Decoder.Laws.{in_memory, streaming, holding, slice-holding}
use binary.Decoder.Checks.{read_slice-read_count, slice-short}
use binary.Codec.Bytes
use binary.Codec.Bytes.{bytes_from_stream, bytes_in_memory, bytes_in_memory-holding}
use binary.Nocopy
use binary.Nocopy.Windows.{decode_bytes-eq-read_slice}

-- The buffer is not larger than a Go slice can be, and the position is inside it.
abbrev pub IsRoomy : Decoder → Type 0
IsRoomy (memory r) = IsValid r × (length r.buffer ≤ max_alloc)
IsRoomy (stream r) = Unit {0}

IsRoomy-IsSound : (d : Decoder) → IsRoomy d → IsSound d
IsRoomy-IsSound (memory r) h = h.0
IsRoomy-IsSound (stream r) h = tt

IsRoomy-Steps : (d s : Decoder) → IsRoomy d → Steps d s → IsRoomy s
IsRoomy-Steps (memory r) (memory s) h g = (rw g.0 g.2, rw g.0 h.1)
IsRoomy-Steps (memory r) (stream s) h g = elim g [ ]
IsRoomy-Steps (stream r) (memory s) h g = elim g [ ]
IsRoomy-Steps (stream r) (stream s) h g = tt

abbrev copied : ℕ → M Decoder (List ℕ)
copied n = by_source (bytes_from_stream n) (bytes_in_memory n)

copied-stream : (n : ℕ) (r : StreamReader) → slice (pos n) (stream r) ≡ copied n (stream r)
unfolding bytes_from_stream holding
copied-stream zero r = slice-holding (streaming r.failure) [] [] r.bytes (omega arith)
copied-stream (suc n) r = rw (suc-eq-zero n)

copied-short :
    (n : ℕ) (front rest : List ℕ)
    → length rest < n
    → slice (pos n) (holding in_memory front rest)
      ≡ bytes_in_memory n (holding in_memory front rest)
unfolding bytes_in_memory
copied-short n front rest h = let short = slice-short n front rest h in rw (short.0, short.1)

copied-enough :
    (b front rest : List ℕ)
    → length b ≤ max_alloc
    → slice (pos (length b)) (holding in_memory front (b ++ rest))
      ≡ bytes_in_memory (length b) (holding in_memory front (b ++ rest))
copied-enough b front rest h =
    slice-holding in_memory b front rest (omega (arith, h))
    ∙ sym (bytes_in_memory-holding b front rest h)

copied-at :
    (n : ℕ) (front rest : List ℕ)
    → length rest ≤ max_alloc
    → slice (pos n) (holding in_memory front rest)
      ≡ bytes_in_memory n (holding in_memory front rest)
copied-at n front rest h = elim (Bool-cases (ltb (length rest) n)) [
  | inl short ↦ copied-short n front rest (ground arith)
  | inr enough ↦
      let le = ltb_false→le (length rest) n enough in
      let size = length-take n rest le in
      let found =
        copied-enough (take n rest) front (drop n rest) (rw size (omega (arith, le, h))) in
      rw (size, append-take-drop n rest) at found
]

copied-memory :
    (n : ℕ) (r : SliceReader) → IsRoomy (memory r) → slice (pos n) (memory r) ≡ copied n (memory r)
unfolding holding
copied-memory n r h =
    let rest = drop r.offset r.buffer in
    let size : length rest ≤ max_alloc = rw (length-drop r.offset r.buffer) (omega (arith, h.1)) in
    subst (λ s. slice (pos n) (memory s) ≡ bytes_in_memory n (memory s)) (at-take-drop r h.0)
      (copied-at n (take r.offset r.buffer) rest size)

copied-lem : (n : ℕ) (d : Decoder) → IsRoomy d → slice (pos n) d ≡ copied n d
copied-lem n (memory r) h = copied-memory n r h
copied-lem n (stream r) h = copied-stream n r

-- On any input, in memory (in a buffer that Go can allocate) or from a stream, the byte slice codec that
-- does not copy and the one that does return the same bytes or the same error and leave the decoder at the
-- same place; and they write the same.
pub decode_bytes-copied :
    (d : Decoder) (b : List ℕ) (e : Encoder)
    → IsRoomy d
    → (Nocopy.decode_bytes d ≡ Bytes.decode_bytes d)
      × (Nocopy.encode_bytes b e ≡ Bytes.encode_bytes b e)
unfolding Bytes.decode_bytes Bytes.encode_bytes Nocopy.encode_bytes
decode_bytes-copied d b e h = (
  decode_bytes-eq-read_slice d
      ∙ read_slice-read_count d
      ∙ next-ext (read_count d) _ _ (λ n s g. copied-lem n s (
          IsRoomy-Steps d s h
            (Steps-next d (read_count d) n s (read_count-Safe.moves d (IsRoomy-IsSound d h)) g))),
  refl,
)
