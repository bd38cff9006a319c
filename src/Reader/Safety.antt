-- ===== src/Reader/Safety.antt =====
-- reader.go: the indices, the buffer and the position of the slice reader over its calls.
use mathlib.Core.Path.{subst}
use binary.Prelude.{
  ap, sym, ◌∙◌, ℕ, zero, suc, ◌+◌, ◌*◌, ◌^◌, ◌≤◌, ◌<◌, ◌≡◌, refl, ◌≢◌, ◌⊎◌, inl, inr, arith,
  Bool-cases, ltb, ltb_false→le,
}
use binary.Prelude.{
  List, [], ◌∷◌, length, get_elem?, take, drop, length-take, length-drop, bit_or, bit_and,
}
use binary.Prelude.{none, some}
use binary.Prelude.Int.{ℤ, pos, negsuc}
use binary.Base.{Result, ok, err, panic, u64, M, next, pure, state-eq, value-eq, err-not_ok}
use binary.Reader.{SliceReader, read_byte, slice, read, uvarint_loop, read_uvarint, read_varint}

-- The position is inside the buffer or at its end.
abbrev pub IsValid : SliceReader → Type 0
IsValid r = r.offset ≤ length r.buffer

pub record Advances {ℓ} {A : Type ℓ} (r : SliceReader) (out : Result A × SliceReader) : Type ℓ where
  pub returns : out.0 ≢ panic
  pub keeps : out.1.buffer ≡ r.buffer
  pub forward : r.offset ≤ out.1.offset
  pub inside : out.1.offset ≤ length r.buffer

get_elem?-lt {ℓ} : {A : Type ℓ} (xs : List A) (i : ℕ) → i < length xs → get_elem? xs i ≢ none
get_elem?-lt [] i h = λ e. absurd (omega arith)
get_elem?-lt (x ∷ xs) zero h = λ e. cc
get_elem?-lt (x ∷ xs) (suc i) h = get_elem?-lt xs i (omega arith)

pub get_elem?-none {ℓ} : {A : Type ℓ} (xs : List A) (i : ℕ) → length xs ≤ i → get_elem? xs i ≡ none
get_elem?-none [] i h = refl
get_elem?-none (x ∷ xs) zero h = absurd (omega arith)
get_elem?-none (x ∷ xs) (suc i) h = get_elem?-none xs i (omega arith)

pub read_byte-Advances : (r : SliceReader) → IsValid r → Advances r (read_byte r)
unfolding read_byte
read_byte-Advances r v = ground (arith, get_elem?-lt r.buffer r.offset)

-- From a position inside the buffer, Slice with any argument, a negative one included, does not
-- panic, keeps the buffer, and moves the position only forward and not past the end.
pub slice-Advances : (n : ℤ) (r : SliceReader) → IsValid r → Advances r (slice n r)
unfolding slice
slice-Advances (pos n) r v = ground arith
slice-Advances (negsuc n) r v = ground arith

-- A slice that is returned has the length that was asked for.
pub length-slice :
    (n : ℕ) (r : SliceReader) {b : List ℕ} → (slice (pos n) r).0 ≡ ok b → length b ≡ n
unfolding slice
length-slice n r h =
    ground (arith, length-take n (drop r.offset r.buffer), length-drop r.offset r.buffer)

length-take_le {ℓ} : {A : Type ℓ} (n : ℕ) (xs : List A) → length (take n xs) ≤ length xs
length-take_le zero xs = omega arith
length-take_le (suc n) [] = omega arith
length-take_le (suc n) (x ∷ xs) = omega (arith, length-take_le n xs)

pub read-Advances : (n : ℕ) (r : SliceReader) → IsValid r → Advances r (read n r)
unfolding read
read-Advances n r v =
    ground (arith, length-take_le n (drop r.offset r.buffer), length-drop r.offset r.buffer)

pub get_elem?-some {ℓ} :
    {A : Type ℓ} (xs : List A) (i : ℕ) {a : A} → get_elem? xs i ≡ some a → i < length xs
get_elem?-some [] i h = cc
get_elem?-some (x ∷ xs) zero h = omega arith
get_elem?-some (x ∷ xs) (suc i) h = omega (arith, get_elem?-some xs i h)

pub read_head :
    (r : SliceReader)
    → (length r.buffer ≤ r.offset) ⊎ ((b : ℕ) × (get_elem? r.buffer r.offset ≡ some b))
read_head r = ground (arith, get_elem?-lt r.buffer r.offset)

pub uvarint_loop-Advances :
    (rounds shift value : ℕ) (r : SliceReader)
    → IsValid r
    → Advances r (uvarint_loop rounds shift value r)
unfolding uvarint_loop
uvarint_loop-Advances zero shift value r v = ground arith
uvarint_loop-Advances (suc rounds) shift value r v = elim (read_head r) [
  | inl e ↦ ground arith
  | inr (b, e) ↦ ground (
    arith,
    get_elem?-some r.buffer r.offset e,
    uvarint_loop-Advances rounds (shift + 7) (bit_or value (u64 (bit_and b 0x7f * 2 ^ shift)))
        (record r { offset = r.offset + 1 }),
  )
]

-- From a position inside the buffer, ReadUvarint does not panic, keeps the buffer, and moves the
-- position only forward and not past the end, whatever the bytes are.
pub read_uvarint-Advances : (r : SliceReader) → IsValid r → Advances r (read_uvarint r)
unfolding read_uvarint
read_uvarint-Advances r v = uvarint_loop-Advances 10 0 0 r v

-- A call and the next one.
pub next-Advances {ℓ κ} :
    {A : Type ℓ} {B : Type κ} (r : SliceReader) (out : Result A × SliceReader)
    (f : A → M SliceReader B)
    → Advances r out
    → ((a : A) (s : SliceReader) → IsValid s → Advances s (f a s))
    → Advances r (next out f)
next-Advances r (ok a, s) f h g =
    let after = g a s (rw (h.keeps) h.inside) in
    record {
      returns = after.returns;
      keeps = after.keeps ∙ h.keeps;
      forward = omega (arith, h.forward, after.forward);
      inside = subst (λ (b : List ℕ). (f a s).1.offset ≤ length b) h.keeps after.inside;
    }
next-Advances r (err e, s) f h g = record {
  returns = λ p. cc;
  keeps = h.keeps;
  forward = h.forward;
  inside = h.inside;
}
next-Advances r (panic, s) f h g = absurd (h.returns refl)

pub pure-Advances {ℓ} : {A : Type ℓ} (a : A) (r : SliceReader) → IsValid r → Advances r (pure a r)
pure-Advances a r v = record { returns = λ p. cc; keeps = refl; forward = omega arith; inside = v }

pub read_varint-Advances : (r : SliceReader) → IsValid r → Advances r (read_varint r)
unfolding read_varint
read_varint-Advances r v =
    next-Advances r (read_uvarint r) _ (read_uvarint-Advances r v) (λ x s w. pure-Advances _ s w)

-- The reader after a call, named.
pub Advances-after {ℓ} :
    {A : Type ℓ} (r : SliceReader) (out : Result A × SliceReader) (o : Result A) (s : SliceReader)
    → Advances r out
    → out ≡ (o, s)
    → (s.buffer ≡ r.buffer) × IsValid s
Advances-after r out o s a e =
    let same : out.1 ≡ s = ap (λ p. p.1) e in
    (
      ap (λ (t : SliceReader). t.buffer) (sym same) ∙ a.keeps,
      subst IsValid same (rw a.keeps a.inside),
    )

-- The part of the buffer that a slice is.
pub slice-part :
    (n : ℕ) (r : SliceReader) (b : List ℕ) (s : SliceReader)
    → slice (pos n) r ≡ (ok b, s)
    → (record r { offset = r.offset + n } ≡ s)
      × (take n (drop r.offset r.buffer) ≡ b)
      × (r.offset + n ≤ length r.buffer)
unfolding slice
slice-part n r b s h = elim (Bool-cases (ltb (length r.buffer) (r.offset + n))) [
  | inl short ↦ absurd (err-not_ok (ap (λ p. p.0) (rw short at h)))
  | inr fits ↦
      let e = rw fits at h in
      (state-eq e, value-eq e, ltb_false→le (length r.buffer) (r.offset + n) fits)
]
