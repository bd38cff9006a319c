-- ===== src/Decoder/Windows.antt =====
-- decoder.go: in memory, `Slice` and `ReadSlice` give a part of the buffer itself.
use binary.Prelude.{ℕ, ◌+◌, ◌≤◌, ◌≡◌, refl, sym, ap, ◌∙◌, arith, length, take, drop, List}
use binary.Prelude.Int.{pos}
use mathlib.Core.Path.{subst}
use binary.Base.{Result, ok, next, next-ok}
use binary.Reader
use binary.Reader.{SliceReader}
use binary.Reader.Safety.{IsValid, length-slice, slice-part}
use binary.Decoder.{
  Decoder, memory, stream, lift_memory, slice, read_slice, read_slice_of, read_uvarint,
  decode_length,
}
use binary.Decoder.Safety.{Steps, Moves, Steps-IsSound, Steps-trans}
use binary.Decoder.Safety.Calls.{read_uvarint-Safe, decode_length-Safe}

-- `b` is a part of the buffer of `r`, behind its position, and `d` is the decoder right behind it.
pub record Window (r : SliceReader) (b : List ℕ) (d : Decoder) : Type 0 where
  pub start : ℕ
  pub after : r.offset ≤ start
  pub inside : start + length b ≤ length r.buffer
  pub part : take (length b) (drop start r.buffer) ≡ b
  pub behind : memory (record r { offset = start + length b }) ≡ d

reader-Window :
    (n : ℕ) (r : SliceReader) (b : List ℕ) (d : Decoder) (out : Result (List ℕ) × SliceReader)
    → Reader.slice (pos n) r ≡ out
    → lift_memory out ≡ (ok b, d)
    → Window r b d
reader-Window n r b d (o, s) e h =
    let found : Reader.slice (pos n) r ≡ (ok b, s) = e ∙ ap (λ p. (p, s)) (ap (λ p. p.0) h) in
    let part = slice-part n r b s found in
    let size : length b ≡ n = length-slice n r (ap (λ p. p.0) found) in
    record {
      start = r.offset;
      after = omega arith;
      inside = rw size part.2;
      part = rw size part.1;
      behind = rw size (ap memory part.0) ∙ ap (λ p. p.1) h;
    }

pub slice-Window :
    (n : ℕ) (r : SliceReader) (b : List ℕ) (d : Decoder)
    → slice (pos n) (memory r) ≡ (ok b, d)
    → Window r b d
unfolding slice
slice-Window n r b d h = reader-Window n r b d (Reader.slice (pos n) r) refl h

-- A part of what is left later is a part of what is left now.
Window-later :
    (r : SliceReader) (s : Decoder) (n : ℕ) (b : List ℕ) (d : Decoder)
    → Steps (memory r) s
    → slice (pos n) s ≡ (ok b, d)
    → Window r b d
Window-later r (stream s) n b d h e = elim h [ ]
Window-later r (memory s) n b d h e =
    let w = slice-Window n s b d e in
    record {
      start = w.start;
      after = omega (arith, h.1, w.after);
      inside = subst (λ (xs : List ℕ). w.start + length b ≤ length xs) h.0 w.inside;
      part = subst (λ (xs : List ℕ). take (length b) (drop w.start xs) ≡ b) h.0 w.part;
      behind =
          ap (λ (xs : List ℕ). memory (record { buffer = xs; offset = w.start + length b }))
            (sym h.0)
          ∙ w.behind;
    }

-- The decoder after a call that moves it.
pub Steps-next :
    {A : Type 0} (d : Decoder) (out : Result A × Decoder) (a : A) (s : Decoder)
    → Moves d out
    → out ≡ (ok a, s)
    → Steps d s
Steps-next d out a s h e = subst (Steps d) (ap (λ p. p.1) e) h.steps

-- A length that was read, and the slice of that length.
counted-Window :
    (r : SliceReader) (l : ℕ) (s : Decoder) (b : List ℕ) (d : Decoder)
    → Steps (memory r) s
    → next (decode_length l s) (λ n. slice (pos n)) ≡ (ok b, d)
    → Window r b d
counted-Window r l s b d h e =
    let (n, t, e', g) = next-ok (decode_length l s) _ b d e in
    let moved = (decode_length-Safe l).moves s (Steps-IsSound (memory r) s h) in
    Window-later r t n b d
      (Steps-trans (memory r) s t h (Steps-next s (decode_length l s) n t moved e')) g

pub read_slice-Window :
    (r : SliceReader) (b : List ℕ) (d : Decoder)
    → IsValid r
    → read_slice (memory r) ≡ (ok b, d)
    → Window r b d
unfolding read_slice read_slice_of
read_slice-Window r b d v h =
    let (l, s, e, g) = next-ok (read_uvarint (memory r)) _ b d h in
    counted-Window r l s b d
      (Steps-next (memory r) (read_uvarint (memory r)) l s (read_uvarint-Safe.moves (memory r) v) e)
      g
