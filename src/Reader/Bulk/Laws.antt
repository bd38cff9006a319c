-- ===== src/Reader/Bulk/Laws.antt =====
-- reader.go: readVarints beside one ReadUvarint for each element.
use binary.Prelude.{
  ℕ, zero, suc, ◌+◌, ◌*◌, ◌^◌, ◌≤◌, ◌<◌, ◌≡◌, refl, ap, ◌∙◌, arith, inl, inr, Bool-cases, ltb,
  ltb→lt, le→ltb_false, sym,
}
use binary.Prelude.{
  List, [], ◌∷◌, ◌++◌, All, All-get_elem?, length, get_elem?, some, bit_and, bit_or,
}
use binary.Prelude.{append_assoc, append-nil, get_elem?-append_mid}
use binary.Base.{wire_each, IsU64}
use binary.Varint.{uvarint_bytes}
use binary.Varint.Shape.{uvarint_bytes-cons}
use binary.Reader.View.{at}
use binary.Reader.Uvarint.{read_uvarint-at}
use binary.Prelude.Bits.{zero-or, bit_and_low}
use binary.Base.{ok, pure, next, next-ext, IsByte, u64}
use binary.Reader.{SliceReader, uvarint_loop, read_uvarint}
use binary.Reader.Safety.{
  IsValid, Advances-after, read_uvarint-Advances, read_head, get_elem?-some, get_elem?-none,
}
use binary.Reader.Bulk.{
  tail_loop, after_tail, short_tail, after_first, read_one, read_varints, read_each,
}

tail_loop-eq-uvarint_loop :
    (rounds s x : ℕ) (r : SliceReader) → tail_loop rounds s x r ≡ uvarint_loop rounds s x r
unfolding tail_loop uvarint_loop
tail_loop-eq-uvarint_loop zero s x r = refl
tail_loop-eq-uvarint_loop (suc rounds) s x r = elim (read_head r) [
  | inl e ↦ ground arith
  | inr (b, e) ↦ ground (
    arith,
    get_elem?-some r.buffer r.offset e,
    tail_loop-eq-uvarint_loop rounds (s + 7) (bit_or x (u64 (bit_and b 0x7f * 2 ^ s)))
        (record r { offset = r.offset + 1 }),
  )
]

abbrev skip : SliceReader → SliceReader
skip r = record r { offset = r.offset + 1 }

-- One round of `ReadUvarint` at a byte that ends the number, and at one that does not.
round_end :
    (rounds shift value b : ℕ) (r : SliceReader)
    → get_elem? r.buffer r.offset ≡ some b
    → b < 128
    → shift < 63
    → uvarint_loop (suc rounds) shift value r ≡ (ok (bit_or value (u64 (b * 2 ^ shift))), skip r)
unfolding uvarint_loop
round_end rounds shift value b r e h k = ground (arith, get_elem?-some r.buffer r.offset e)

round_more :
    (rounds shift value b : ℕ) (r : SliceReader)
    → get_elem? r.buffer r.offset ≡ some b
    → 128 ≤ b
    → uvarint_loop (suc rounds) shift value r
      ≡ uvarint_loop rounds (shift + 7) (bit_or value (u64 (bit_and b 0x7f * 2 ^ shift))) (skip r)
unfolding uvarint_loop
round_more rounds shift value b r e h = ground (arith, get_elem?-some r.buffer r.offset e)

after_tail-eq :
    (b : ℕ) (r : SliceReader) → after_tail b (short_tail r) r ≡ uvarint_loop 9 7 (bit_and b 0x7f) r
unfolding after_tail
after_tail-eq b r = elim (read_head r) [
  | inl e ↦
      rw (get_elem?-none r.buffer r.offset e, after_tail)
        (tail_loop-eq-uvarint_loop 9 7 (bit_and b 0x7f) r)
  | inr (c, e) ↦ elim (Bool-cases (ltb c 0x80)) [
    | inl small ↦
        rw (e, small, after_tail)
          (sym (round_end 8 7 (bit_and b 0x7f) c r e (ltb→lt c 0x80 small) (omega arith)))
    | inr large ↦ rw (e, large, after_tail) (tail_loop-eq-uvarint_loop 9 7 (bit_and b 0x7f) r)
  ]
]

after_first-eq :
    (b : ℕ) (r : SliceReader) → 128 ≤ b → after_first b r ≡ uvarint_loop 9 7 (bit_and b 0x7f) r
unfolding after_first
after_first-eq b r h = rw (le→ltb_false b 0x80 h) (after_tail-eq b r)

after_first_small : (b : ℕ) (r : SliceReader) → b < 128 → after_first b r ≡ (ok b, r)
unfolding after_first
after_first_small b r h = ground arith

-- At a byte, one element is read as `ReadUvarint` reads it, with the same error and position.
read_one-eq_at :
    (r : SliceReader)
    → ((b : ℕ) → get_elem? r.buffer r.offset ≡ some b → IsByte b)
    → read_one r ≡ read_uvarint r
unfolding read_one read_uvarint
read_one-eq_at r byte = elim (read_head r) [
  | inl e ↦ unfold uvarint_loop in ground arith
  | inr (b, e) ↦ ground (
    arith,
    get_elem?-some r.buffer r.offset e,
    after_first-eq b (skip r),
    round_end 9 0 0 b r e,
    round_more 9 0 0 b r e,
    zero-or b,
    zero-or (bit_and b 0x7f),
    bit_and_low b,
    byte b e,
    after_first_small b (skip r),
  )
]

pub read_one-eq-read_uvarint : (r : SliceReader) → All IsByte r.buffer → read_one r ≡ read_uvarint r
read_one-eq-read_uvarint r bytes =
    read_one-eq_at r (λ b e. All-get_elem? IsByte r.buffer r.offset b bytes e)

read_one-at :
    (x : ℕ) (front rest : List ℕ)
    → IsU64 x
    → read_one (at front (uvarint_bytes x ++ rest)) ≡ (ok x, at (front ++ uvarint_bytes x) rest)
read_one-at x front rest h =
    let (b, more, e, byte) = uvarint_bytes-cons x in
    read_one-eq_at (at front (uvarint_bytes x ++ rest)) (λ c ec. ground (arith, head_of b more e))
    ∙ read_uvarint-at x front rest h
  where
    head_of :
        (b : ℕ) (more : List ℕ)
        → uvarint_bytes x ≡ b ∷ more
        → get_elem? (front ++ (uvarint_bytes x ++ rest)) (length front) ≡ some b
    head_of b more e = rw e (get_elem?-append_mid front (more ++ rest) b)

module _ {ℓ} {T : Type ℓ} (value : ℕ → T) where
  -- On a buffer of bytes and from a position inside it, readVarints, with its fast paths for numbers of
  -- one and two bytes, does what a loop of ReadUvarint does: the same values, the same error, and the
  -- same position afterwards.
  pub read_varints-eq-read_each :
      (n : ℕ) (r : SliceReader)
      → All IsByte r.buffer
      → IsValid r
      → read_varints value n r ≡ read_each value n r
  unfolding read_varints read_each
  read_varints-eq-read_each zero r bytes v = refl
  read_varints-eq-read_each (suc n) r bytes v = rw (read_one-eq-read_uvarint r bytes) (
      next-ext (read_uvarint r) _ _ λ x s e.
        let after = Advances-after r (read_uvarint r) (ok x) s (read_uvarint-Advances r v) e in
        let bytes' : All IsByte s.buffer = rw after.0 bytes in
        ap (λ out. next out (λ xs. pure (value x ∷ xs)))
          (read_varints-eq-read_each n s bytes' after.1))

  -- readVarints reads numbers that were written one after the other back as the values that they
  -- code, where each value is coded as a uint64 that converts back to it, and stops right behind them.
  pub read_varints-at :
      (code : T → ℕ) (xs : List T) (front rest : List ℕ)
      → All (λ x. IsU64 (code x) × (value (code x) ≡ x)) xs
      → read_varints value
          (length xs)
          (at front (wire_each (λ x. uvarint_bytes (code x)) xs ++ rest))
        ≡ (ok xs, at (front ++ wire_each (λ x. uvarint_bytes (code x)) xs) rest)
  unfolding read_varints wire_each
  read_varints-at code [] front rest h = rw append-nil
  read_varints-at code (x ∷ xs) front rest h =
      let wire : List ℕ = wire_each (λ x. uvarint_bytes (code x)) xs in
      let front' : List ℕ = front ++ uvarint_bytes (code x) in
      rw
        (
          append_assoc,
          read_one-at (code x) front (wire ++ rest) h.0.0,
          read_varints-at code xs front' rest h.1,
          h.0.1,
        )
        (ap (λ f. (ok (x ∷ xs), at f rest)) (append_assoc front (uvarint_bytes (code x)) wire))
