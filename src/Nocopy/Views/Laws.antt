-- ===== src/Nocopy/Views/Laws.antt =====
-- nocopy/types.go: what is seen of one decoded slice of bytes through another.
use binary.Prelude.{
  ℕ, zero, suc, ◌+◌, ◌-◌, ◌==◌, ◌≤◌, ◌<◌, ◌≡◌, refl, sym, ap, ◌∙◌, arith, ltb, length, take, drop,
  List, [], ◌∷◌, Option, none, some, Bool-cases, inl, inr, ◌⊎◌, Bool, true, false,
}
use mathlib.Core.Path.{subst}
use binary.Base.{
  Result, ok, err, next, next-ok, value-eq, state-eq, check, Error, pure, unexpected_eof,
}
use binary.Stream.{max_int}
use binary.Reader.{SliceReader, read_uvarint}
use binary.Reader.Safety.{IsValid, read_uvarint-Advances}
use binary.Nocopy.Views.{
  View, reader_view, set_slice, decode_view, elements, put_byte, store, append_byte,
}

-- Where a decoded slice lies: behind the position, up to the new one, and with no more room than elements.
record Lies (r : SliceReader) (v : View) (s : SliceReader) : Type 0 where
  after : r.offset ≤ v.start
  end : v.start + v.size ≡ s.offset
  inside : s.offset ≤ length r.buffer
  capped : v.capacity ≡ v.size
  same : s.buffer ≡ r.buffer

set_slice-Lies :
    (r t : SliceReader) (b v : View)
    → r.offset ≤ b.start
    → b.start + b.size ≡ t.offset
    → t.offset ≤ length r.buffer
    → t.buffer ≡ r.buffer
    → set_slice b ≡ some v
    → Lies r v t
unfolding set_slice
set_slice-Lies r t b v after end inside same h = elim (Bool-cases (b.size == 0)) [
  | inl z ↦ absurd (none-not_some (rw z at h))
  | inr f ↦
      subst (λ w. Lies r w t) (some-eq (rw f at h))
        (record { after = after; end = end; inside = inside; capped = refl; same = same })
]
  where
    none-not_some : Path (Option View) none (some v) → ⊥
    none-not_some e = cc

    some-eq : {w : View} → some w ≡ some v → w ≡ v
    some-eq e = cc

-- A view of the reader, as `Slice` gives it, behind a reader of the same buffer.
reader_view-Lies :
    (r t s : SliceReader) (n : ℕ) (v : View) (b : Option View) (d : SliceReader)
    → r.offset ≤ t.offset
    → t.buffer ≡ r.buffer
    → next (reader_view n t) (λ w. pure (set_slice w)) ≡ (ok (some v), d)
    → Lies r v d
unfolding reader_view
reader_view-Lies r t s n v b d forward same h =
    elim (Bool-cases (ltb (length t.buffer) (t.offset + n))) [
      | inl past ↦ absurd (failed (rw past at h))
      | inr fits ↦
          let view : View = record {
            start = t.offset;
            size = n;
            capacity = length t.buffer - t.offset;
          } in
          let behind : SliceReader = record t { offset = t.offset + n } in
          let found : Path (Result (Option View) × SliceReader) (ok (set_slice view), behind)
              (ok (some v), d) =
            rw fits at h in
          subst (Lies r v) (state-eq found) (
            set_slice-Lies r behind view v forward refl (rw (← same) (ground arith)) same
              (value-eq found))
    ]
  where
    failed :
        {e : _} {u : SliceReader}
        → Path (Result (Option View) × SliceReader) (err e, u) (ok (some v), d)
        → ⊥
    failed e = cc

checked-state :
    (c : Bool) (e : Error) (t : SliceReader) (m : SliceReader → Result (Option View) × SliceReader)
    (v : View) (d : SliceReader)
    → next (check c e t) (λ u. m) ≡ (ok (some v), d)
    → m t ≡ (ok (some v), d)
checked-state true e t m v d h = cc
checked-state false e t m v d h = h

decode_view-Lies :
    (r : SliceReader) (v : View) (d : SliceReader)
    → IsValid r
    → decode_view r ≡ (ok (some v), d)
    → Lies r v d
unfolding decode_view
decode_view-Lies r v d valid h =
    let (l, t, e, g) = next-ok (read_uvarint r) _ (some v) d h in
    let moved = read_uvarint-Advances r valid in
    let there : (read_uvarint r).1 ≡ t = ap (λ p. p.1) e in
    reader_view-Lies r t t l v none d (subst (λ u. r.offset ≤ u.offset) there moved.forward)
      (subst (λ u. u.buffer ≡ r.buffer) there moved.keeps)
      (checked-state (ltb max_int l) unexpected_eof t
        (λ u. next (reader_view l u) (λ w. pure (set_slice w))) v d g)

-- A byte outside a window changes nothing in it.
window-put :
    (i x from n : ℕ) (xs : List ℕ)
    → (i < from) ⊎ (from + n ≤ i)
    → take n (drop from (put_byte i x xs)) ≡ take n (drop from xs)
window-put i x from n [] h = refl
window-put zero x zero zero (y ∷ ys) h = refl
window-put zero x zero (suc n) (y ∷ ys) (inl h) = absurd (omega arith)
window-put zero x zero (suc n) (y ∷ ys) (inr h) = absurd (omega arith)
window-put zero x (suc from) n (y ∷ ys) h = refl
window-put (suc i) x zero zero (y ∷ ys) h = refl
window-put (suc i) x zero (suc n) (y ∷ ys) (inl h) = absurd (omega arith)
window-put (suc i) x zero (suc n) (y ∷ ys) (inr h) =
    ap (λ t. y ∷ t) (window-put i x zero n ys (inr (omega arith)))
window-put (suc i) x (suc from) n (y ∷ ys) (inl h) = window-put i x from n ys (inl (omega arith))
window-put (suc i) x (suc from) n (y ∷ ys) (inr h) = window-put i x from n ys (inr (omega arith))

take-put : (i x n : ℕ) (xs : List ℕ) → take n (put_byte i x xs) ≡ put_byte i x (take n xs)
take-put i x zero xs = refl
take-put i x (suc n) [] = refl
take-put zero x (suc n) (y ∷ ys) = refl
take-put (suc i) x (suc n) (y ∷ ys) = ap (λ t. y ∷ t) (take-put i x n ys)

-- A byte in a window is the same byte of what is seen through it.
window-within :
    (k i x from n : ℕ) (xs : List ℕ)
    → k ≡ from + i
    → take n (drop from (put_byte k x xs)) ≡ put_byte i x (take n (drop from xs))
window-within k i x zero n xs h = let same : k ≡ i = omega (arith, h) in rw same (take-put i x n xs)
window-within k i x (suc from) zero [] h = refl
window-within k i x (suc from) (suc n) [] h = refl
window-within zero i x (suc from) n (y ∷ ys) h = absurd (omega (arith, h))
window-within (suc k) i x (suc from) n (y ∷ ys) h = window-within k i x from n ys (omega (arith, h))

-- A write through a slice that has no more room than elements leaves a slice beside it as it was.
store-beside :
    (v : View) (i x from n : ℕ) (buffer : List ℕ)
    → v.capacity ≡ v.size
    → (v.start + v.size ≤ from) ⊎ (from + n ≤ v.start)
    → take n (drop from (store v i x buffer)) ≡ take n (drop from buffer)
unfolding store
store-beside v i x from n buffer capped h = elim (Bool-cases (ltb i v.capacity)) [
  | inl there ↦ rw there (
      window-put (v.start + i) x from n buffer
        (elim h [ inl before ↦ inl (ground arith) | inr behind ↦ inr (omega arith) ]))
  | inr past ↦ rw past refl
]

store-through :
    (v : View) (i x : ℕ) (buffer : List ℕ)
    → v.capacity ≡ v.size
    → elements (store v i x buffer) (some v) ≡ put_byte i x (elements buffer (some v))
unfolding store elements
store-through v i x buffer capped = elim (Bool-cases (ltb i v.capacity)) [
  | inl there ↦ rw there (window-within (v.start + i) i x v.start v.size buffer refl)
  | inr past ↦ rw past (
      sym (window-put (v.start + i) x v.start v.size buffer (inr (ground arith)))
      ∙ window-within (v.start + i) i x v.start v.size buffer refl)
]

append-full :
    (v : View) (x : ℕ) (buffer : List ℕ) → v.capacity ≡ v.size → append_byte v x buffer ≡ buffer
unfolding append_byte
append-full v x buffer capped =
    let full : ltb v.size v.capacity ≡ false = ground arith in rw full refl

-- Two slices of bytes that are decoded one after the other from memory are parts of the decoder's buffer:
-- a write through the first, at any index, is one to the buffer and is seen through the first. No write
-- through the one, as far as its capacity reaches, is seen through the other, and an append to the first
-- writes nothing to the buffer.
pub decode_view-apart :
    (r s t : SliceReader) (a b : View) (i x : ℕ)
    → IsValid r
    → decode_view r ≡ (ok (some a), s)
    → decode_view s ≡ (ok (some b), t)
    → (elements (store a i x r.buffer) (some a) ≡ put_byte i x (elements r.buffer (some a)))
      × (elements (store a i x r.buffer) (some b) ≡ elements r.buffer (some b))
      × (elements (store b i x r.buffer) (some a) ≡ elements r.buffer (some a))
      × (append_byte a x r.buffer ≡ r.buffer)
unfolding elements
decode_view-apart r s t a b i x valid h g =
    let one = decode_view-Lies r a s valid h in
    let two = decode_view-Lies s b t (rw (one.same) (one.inside)) g in
    let order : a.start + a.size ≤ b.start = omega (arith, one.end, two.after) in
    (
      store-through a i x r.buffer one.capped,
      store-beside a i x b.start b.size r.buffer one.capped (inl order),
      store-beside b i x a.start a.size r.buffer two.capped (inr order),
      append-full a x r.buffer one.capped,
    )
