-- ===== src/Reader/Bulk/Safety.antt =====
-- reader.go: `readVarints` on any input.
use binary.Prelude.{ℕ, zero, suc, ◌+◌, ◌*◌, ◌^◌, ◌≤◌, ◌≡◌, refl, ◌≢◌, inl, inr, arith}
use binary.Prelude.{[], ◌∷◌, length, bit_and, bit_or, Option, none, some, leb, ◌<◌, true, false}
use binary.Base.{Result, u64}
use binary.Reader.{SliceReader, bump, index}
use binary.Reader.Safety.{
  IsValid, Advances, get_elem?-some, get_elem?-none, read_head, next-Advances, pure-Advances,
}
use binary.Reader.Bulk.{tail_loop, short_tail, after_tail, after_first, read_one, read_varints}

tail_loop-Advances :
    (rounds s x : ℕ) (r : SliceReader) → IsValid r → Advances r (tail_loop rounds s x r)
unfolding tail_loop
tail_loop-Advances zero s x r v = ground arith
tail_loop-Advances (suc rounds) s x r v = elim (read_head r) [
  | inl e ↦ ground arith
  | inr (b, e) ↦ ground (
    arith,
    get_elem?-some r.buffer r.offset e,
    tail_loop-Advances rounds (s + 7) (bit_or x (u64 (bit_and b 0x7f * 2 ^ s)))
        (record r { offset = r.offset + 1 }),
  )
]

after_tail-Advances :
    (b : ℕ) (o : Option ℕ) (r : SliceReader)
    → (o ≢ none → r.offset < length r.buffer)
    → IsValid r
    → Advances r (after_tail b o r)
unfolding after_tail
after_tail-Advances b none r h v = tail_loop-Advances 9 7 (bit_and b 0x7f) r v
after_tail-Advances b (some c) r h v =
    let inside = h (λ e. cc) in
    record {
      returns = λ p. cc;
      keeps = refl;
      forward = omega arith;
      inside = omega (arith, inside);
    }

short_tail-inside : (r : SliceReader) → short_tail r ≢ none → r.offset < length r.buffer
short_tail-inside r h = elim (read_head r) [
  | inl e ↦ absurd (h (rw (short_tail, get_elem?-none r.buffer r.offset e)))
  | inr (c, e) ↦ get_elem?-some r.buffer r.offset e
]

after_first-Advances : (b : ℕ) (r : SliceReader) → IsValid r → Advances r (after_first b r)
unfolding after_first
after_first-Advances b r v =
    ground (arith, after_tail-Advances b (short_tail r) r (short_tail-inside r) v)

-- A call after a byte has been read.
bump-Advances :
    {A : Type 0} (r : SliceReader) (out : Result A × SliceReader)
    → Advances (record r { offset = r.offset + 1 }) out
    → Advances r out
bump-Advances r out h = record {
  returns = h.returns;
  keeps = h.keeps;
  forward = omega (arith, h.forward);
  inside = h.inside;
}

at_end : (m n : ℕ) → m ≤ n → leb m n ≡ true
at_end m n h = ground arith

not_at_end : (m n : ℕ) → n < m → leb m n ≡ false
not_at_end m n h = ground arith

read_one-Advances : (r : SliceReader) → IsValid r → Advances r (read_one r)
unfolding read_one
read_one-Advances r v = elim (read_head r) [
  | inl e ↦
      rw (at_end (length r.buffer) r.offset e)
        (record { returns = λ p. cc; keeps = refl; forward = omega arith; inside = v })
  | inr (c, e) ↦
      let inside = get_elem?-some r.buffer r.offset e in
      rw (not_at_end (length r.buffer) r.offset inside, bump, index, e)
        (bump-Advances r (after_first c (record r { offset = r.offset + 1 }))
          (after_first-Advances c (record r { offset = r.offset + 1 }) (omega (arith, inside))))
]

pub read_varints-Advances {ℓ} :
    {T : Type ℓ} (value : ℕ → T) (n : ℕ) (r : SliceReader)
    → IsValid r
    → Advances r (read_varints value n r)
unfolding read_varints
read_varints-Advances value zero r v = pure-Advances [] r v
read_varints-Advances value (suc n) r v =
    next-Advances r (read_one r) _ (read_one-Advances r v) λ x s w.
      next-Advances s (read_varints value n s) _ (read_varints-Advances value n s w)
        λ xs t u. pure-Advances (value x ∷ xs) t u
