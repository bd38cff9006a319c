-- ===== src/Stream/Safety.antt =====
-- reader.go: streamReader on any input.
use binary.Prelude.{ℕ, zero, suc, ◌+◌, ◌*◌, ◌^◌, ◌≤◌, ◌≡◌, refl, ◌≢◌, arith}
use binary.Prelude.{List, [], ◌∷◌, length, length-drop, bit_and, bit_or}
use binary.Prelude.Int.{ℤ, pos, negsuc}
use binary.Base.{Error, Result, ok, err, panic, u64, next, pure}
use binary.Stream.{
  StreamReader, read_byte, read_full, read_limited, slice, after_byte, round_of, uvarint_loop,
}
use binary.Stream.{read_uvarint, read_varint, byte_of, std_unfold}

-- No panic, no more bytes to come than before, and the same error at the end.
pub record Drains {ℓ} {A : Type ℓ} (r : StreamReader) (out : Result A × StreamReader) : Type ℓ where
  pub returns : out.0 ≢ panic
  pub shorter : length out.1.bytes ≤ length r.bytes
  pub same : out.1.failure ≡ r.failure

read_byte-of :
    (bs : List ℕ) (x : Error)
    → Drains (record { bytes = bs; failure = x }) (read_byte (record { bytes = bs; failure = x }))
unfolding read_byte byte_of
read_byte-of [] x = ground arith
read_byte-of (b ∷ bs) x = ground arith

pub read_byte-Drains : (r : StreamReader) → Drains r (read_byte r)
read_byte-Drains r = read_byte-of r.bytes r.failure

pub slice-Drains : (n : ℤ) (r : StreamReader) → Drains r (slice n r)
unfolding slice read_limited read_full
slice-Drains (negsuc n) r = ground arith
slice-Drains (pos n) r = ground (arith, length-drop n r.bytes)

pub read_full-Drains : (n : ℕ) (r : StreamReader) → Drains r (read_full n r)
unfolding read_full
read_full-Drains n r = ground (arith, length-drop n r.bytes)

uvarint_loop-of :
    (rounds shift value : ℕ) (bs : List ℕ) (x : Error)
    → Drains
        (record { bytes = bs; failure = x })
        (uvarint_loop rounds shift value (record { bytes = bs; failure = x }))
unfolding uvarint_loop round_of after_byte
uvarint_loop-of zero shift value bs x = ground arith
uvarint_loop-of (suc rounds) shift value [] x = ground arith
uvarint_loop-of (suc rounds) shift value (b ∷ bs) x = ground (
  arith,
  uvarint_loop-of rounds (shift + 7) (bit_or value (u64 (bit_and b 0x7f * 2 ^ shift))) bs x,
)

pub read_uvarint-Drains : (r : StreamReader) → Drains r (read_uvarint r)
unfolding read_uvarint
read_uvarint-Drains r = uvarint_loop-of 10 0 0 r.bytes r.failure

mapped-Drains :
    {A B : Type 0} (r : StreamReader) (out : Result A × StreamReader) (f : A → B)
    → Drains r out
    → Drains r (next out (λ a. pure (f a)))
mapped-Drains r (ok a, s) f h = record { returns = λ p. cc; shorter = h.shorter; same = h.same }
mapped-Drains r (err e, s) f h = record { returns = λ p. cc; shorter = h.shorter; same = h.same }
mapped-Drains r (panic, s) f h = absurd (h.returns refl)

pub read_varint-Drains : (r : StreamReader) → Drains r (read_varint r)
unfolding read_varint
read_varint-Drains r = mapped-Drains r (read_uvarint r) std_unfold (read_uvarint-Drains r)
