-- ===== src/Decoder/Bounds.antt =====
-- decoder.go: a count in memory and the bytes that are left.
use binary.Prelude.{ℕ, ◌≤◌, ◌≡◌, refl, ap, sym, ◌∙◌, arith, Bool, true, false, ltb, ltb_false→le}
use mathlib.Core.Path.{subst}
use binary.Prelude.{Bool-cases, inl, inr}
use binary.Base.{Result, ok, err, M, next, next-ok, state-eq, check, eof, Error}
use binary.Stream.{max_int}
use binary.Reader
use binary.Reader.{SliceReader}
use binary.Reader.Safety.{IsValid, read_uvarint-Advances}
use binary.Decoder.{
  Decoder, memory, read_uvarint, read_count, decode_length, ensure_available, available,
}

fails :
    {A : Type 0} {e : Error} {a : A} {d d' : Decoder}
    → Path (Result A × Decoder) (err e, d) (ok a, d')
    → ⊥
fails h = cc

decode_length-ok : (l n : ℕ) (d d' : Decoder) → decode_length l d ≡ (ok n, d') → d ≡ d'
unfolding decode_length
decode_length-ok l n d d' h = elim (Bool-cases (ltb max_int l)) [
  | inl e ↦ absurd (fails (rw e at h))
  | inr e ↦ state-eq (rw e at h)
]

read_uvarint-memory :
    (r : SliceReader) (l : ℕ) (d : Decoder)
    → IsValid r
    → read_uvarint (memory r) ≡ (ok l, d)
    → (s : SliceReader) × (d ≡ memory s) × (Reader.len s ≤ Reader.len r)
unfolding read_uvarint Reader.len
read_uvarint-memory r l d v h =
    let a = read_uvarint-Advances r v in
    let s = (Reader.read_uvarint r).1 in
    (s, sym (ap (λ p. p.1) h), rw a.keeps (omega (arith, a.forward)))

check-ok :
    (b : Bool) (d d' : Decoder) {u : Unit {0}} → check b eof d ≡ (ok u, d') → (b ≡ false) × (d ≡ d')
check-ok true d d' h = absurd (fails h)
check-ok false d d' h = (refl, state-eq h)

ensure_available-memory :
    (n : ℕ) (r : SliceReader) (u : Unit {0}) (d : Decoder)
    → ensure_available n (memory r) ≡ (ok u, d)
    → n ≤ Reader.len r
unfolding ensure_available available
ensure_available-memory n r u d h = ltb_false→le (Reader.len r) n (check-ok _ (memory r) d h).0

-- The count is checked against what is left once it has been read.
pub checked :
    {A : Type 0} (rest : ℕ → M Decoder A) (r : SliceReader) (a : A) (d : Decoder)
    → IsValid r
    → next (read_count (memory r)) (λ n s. next (ensure_available n s) (λ u. rest n)) ≡ (ok a, d)
    → (n : ℕ) × (s : Decoder) × (n ≤ Reader.len r) × (rest n s ≡ (ok a, d))
unfolding read_count
checked rest r a d v h =
    let (n, s, e, g) = next-ok (read_count (memory r)) _ a d h in
    let (l, t, e', g') = next-ok (read_uvarint (memory r)) _ n s e in
    let (t', et, le) = read_uvarint-memory r l t v e' in
    let st : memory t' ≡ s = sym et ∙ decode_length-ok l n t s g' in
    let (u, s', e'', g'') = next-ok (ensure_available n s) _ a d g in
    let enough =
      ensure_available-memory n t' u s'
        (subst (λ x. ensure_available n x ≡ (ok u, s')) (sym st) e'') in
    (n, s', omega (arith, enough, le), g'')
