-- ===== src/Nocopy/Views/Values.antt =====
-- nocopy/types.go: the slice that is set against the bytes that are read.
use binary.Prelude.{
  ℕ, ◌+◌, ◌-◌, ◌==◌, ◌≡◌, refl, ◌∙◌, arith, ltb, length, take, drop, List, Option, Bool-cases, inl,
  inr, ap, sym,
}
use binary.Base.{Result, ok, err, panic, next, pure, check, unexpected_eof}
use binary.Stream.{max_int}
use binary.Reader
use binary.Reader.{SliceReader}
use binary.Decoder.{
  Decoder, memory, lift_memory, read_uvarint, slice, decode_length, read_slice_of, read_slice,
}
use binary.Nocopy.{decode_bytes}
use binary.Nocopy.Windows.{decode_bytes-eq-read_slice}
use binary.Nocopy.Views.{View, reader_view, set_slice, decode_view, elements}

-- What a caller sees of the result: the elements of the slice in the buffer.
pub seen : Result (Option View) × SliceReader → Result (List ℕ) × Decoder
seen (ok v, s) = (ok (elements s.buffer v), memory s)
seen (err e, s) = (err e, memory s)
seen (panic, s) = (panic, memory s)

elements-set_slice :
    (buffer : List ℕ) (from n room : ℕ)
    → elements buffer (set_slice (record { start = from; size = n; capacity = room }))
      ≡ take n (drop from buffer)
unfolding elements set_slice
elements-set_slice buffer from n room = elim (Bool-cases (n == 0)) [
  | inl z ↦ let none_left : n ≡ 0 = ground arith in rw (z, none_left) refl
  | inr f ↦ rw f refl
]

counted-seen :
    (l : ℕ) (t : SliceReader)
    → read_slice_of l (memory t)
      ≡ seen (
          next
            (check (ltb max_int l) unexpected_eof t)
            (λ u. λ s. next (reader_view l s) (λ w. pure (set_slice w))))
unfolding seen reader_view read_slice_of decode_length slice Reader.slice
counted-seen l t = elim (Bool-cases (ltb max_int l)) [
  | inl large ↦ rw large refl
  | inr small ↦ elim (Bool-cases (ltb (length t.buffer) (t.offset + l))) [
    | inl past ↦ rw (small, past) refl
    | inr fits ↦
        rw (small, fits)
          (ap (λ (b : List ℕ). (ok b, memory (record t { offset = t.offset + l })))
            (sym (elements-set_slice t.buffer t.offset l (length t.buffer - t.offset))))
  ]
]

read-seen :
    (out : Result ℕ × SliceReader)
    → next (lift_memory out) read_slice_of
      ≡ seen (
          next out (λ l t.
            next
              (check (ltb max_int l) unexpected_eof t)
              (λ u. λ s. next (reader_view l s) (λ w. pure (set_slice w)))))
unfolding seen
read-seen (ok l, t) = counted-seen l t
read-seen (err e, t) = refl
read-seen (panic, t) = refl

-- The slice that DecodeTo sets from memory, looked up in the decoder's buffer afterwards, has the bytes that
-- it reads, with the same error and the same position on every input.
pub decode_view-eq : (r : SliceReader) → decode_bytes (memory r) ≡ seen (decode_view r)
unfolding decode_view read_slice read_uvarint
decode_view-eq r = decode_bytes-eq-read_slice (memory r) ∙ read-seen (Reader.read_uvarint r)
