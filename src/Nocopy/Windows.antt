-- ===== src/Nocopy/Windows.antt =====
-- nocopy/types.go: what is decoded in memory is a part of the decoder's buffer.
use binary.Prelude.{
  ℕ, ◌+◌, ◌≤◌, ◌≡◌, refl, sym, ◌∙◌, length, take, drop, List, [], ◌∷◌, ◌==◌, if◌then◌else◌,
  suc-eq-zero,
}
use mathlib.Core.Path.{subst}
use binary.Base.{Result, ok, err, panic, next, pure}
use binary.Reader.{SliceReader}
use binary.Reader.Safety.{IsValid}
use binary.Decoder.{Decoder, memory, read_slice}
use binary.Decoder.Windows.{Window, read_slice-Window}
use binary.Nocopy.{decode_bytes}

pub again :
    (out : Result (List ℕ) × Decoder)
    → next out (λ b. if length b == 0 then pure [] else pure b) ≡ out
again (ok [], s) = refl
again (ok (x ∷ b), s) = rw (suc-eq-zero (length b)) refl
again (err e, s) = refl
again (panic, s) = refl

pub decode_bytes-eq-read_slice : (d : Decoder) → decode_bytes d ≡ read_slice d
unfolding decode_bytes
decode_bytes-eq-read_slice d = again (read_slice d)

-- From a decoder in memory whose position is inside its buffer, the byte slice that DecodeTo returns is a
-- part of that buffer: it lies between the old position and the new one, and ends where the decoder goes
-- on.
decode_bytes-Window :
    (r : SliceReader) (b : List ℕ) (d : Decoder)
    → IsValid r
    → decode_bytes (memory r) ≡ (ok b, d)
    → Window r b d
decode_bytes-Window r b d v h =
    read_slice-Window r b d v (sym (decode_bytes-eq-read_slice (memory r)) ∙ h)

memory-eq : {r s : SliceReader} → Path Decoder (memory r) (memory s) → r ≡ s
memory-eq h = cc

-- Two byte slices that are decoded one after the other stand at two places of the buffer that do not overlap.
decode_bytes-apart :
    (r s : SliceReader) (a b : List ℕ) (d : Decoder)
    → IsValid r
    → decode_bytes (memory r) ≡ (ok a, memory s)
    → decode_bytes (memory s) ≡ (ok b, d)
    → (i : ℕ) × (j : ℕ) × (r.offset ≤ i)
      × (i + length a ≤ j)
      × (j + length b ≤ length r.buffer)
      × (take (length a) (drop i r.buffer) ≡ a)
      × (take (length b) (drop j r.buffer) ≡ b)
decode_bytes-apart r s a b d v h g =
    let one = decode_bytes-Window r a (memory s) v h in
    let there : record r { offset = one.start + length a } ≡ s = memory-eq one.behind in
    let two : Window (record r { offset = one.start + length a }) b d =
      subst (λ t. Window t b d) (sym there)
        (decode_bytes-Window s b d (subst IsValid there one.inside) g) in
    (one.start, two.start, one.after, two.after, two.inside, one.part, two.part)
