-- ===== src/Reader/Bulk.antt =====
-- `readVarints`, the loop that fills a slice of integers from an in-memory reader.
pub mod Laws
pub mod Safety
use binary.Prelude.{ℕ, zero, suc, ◌+◌, ◌*◌, ◌%◌, ◌^◌, bit_and, bit_or, leb, ltb, ◌==◌, ◌&&◌}
use binary.Prelude.{List, [], ◌∷◌, if◌then◌else◌, length, get_elem?, Option, none, some}
use binary.Prelude.Int.{ℤ, word, signed}
use binary.Base.{eof, overflow, ok, err, M, ◌>>=◌, next, pure, fail, u64}
use binary.Varint.{decode_varint}
use binary.Reader.{SliceReader, bump, read_uvarint}

-- `for s := 7; s < MaxVarintLen64*7; s += 7`, with the rounds left.
pub tail_loop : ℕ → ℕ → ℕ → M SliceReader ℕ
tail_loop zero s x = fail overflow
tail_loop (suc rounds) s x = λ r.
    if leb (length r.buffer) r.offset
    then (err eof, r)
    else next (bump r) λ b.
      let more = tail_loop rounds (s + 7) (bit_or x (u64 (bit_and b 0x7f * 2 ^ s))) in
      if ltb b 0x80
      then (if (s == 63) && ltb 1 b then fail overflow else pure (bit_or x (u64 (b * 2 ^ s))))
      else more

-- `offset < len(buffer) && buffer[offset] < 0x80`, with the byte that it looked at.
abbrev pub short_tail : SliceReader → Option ℕ
short_tail r = elim (get_elem? r.buffer r.offset) [
  | none ↦ none
  | some c ↦ if ltb c 0x80 then some c else none
]

-- After a first byte `b` with its top bit set: the number has two bytes, or goes on in `tail_loop`.
pub after_tail : ℕ → Option ℕ → M SliceReader ℕ
after_tail b (some c) r =
    (ok (bit_or (bit_and b 0x7f) (u64 (c * 2 ^ 7))), record r { offset = r.offset + 1 })
after_tail b none r = tail_loop 9 7 (bit_and b 0x7f) r

pub after_first : ℕ → M SliceReader ℕ
unfolding after_tail tail_loop
after_first b r = if ltb b 0x80 then (ok b, r) else after_tail b (short_tail r) r

-- One round of the loop over `values`, before the conversion to the element type.
pub read_one : M SliceReader ℕ
unfolding after_first
read_one r = if leb (length r.buffer) r.offset then (err eof, r) else next (bump r) after_first

-- `T(value)` for an unsigned and a signed element type of `w` bits.
abbrev pub to_unsigned : ℕ → ℕ → ℕ
to_unsigned w value = value % 2 ^ w

abbrev pub to_signed : ℕ → ℤ → ℤ
to_signed w value = signed w (word 64 value % 2 ^ w)

abbrev pub varint_value : ℕ → ℕ → ℤ
varint_value w value = to_signed w (decode_varint value)

module _ {ℓ} {T : Type ℓ} (value : ℕ → T) where
  -- `for i := range values`, for the `n` elements that are left. The position is written back to
  -- the reader on every way out.
  pub read_varints : ℕ → M SliceReader (List T)
  read_varints zero = pure []
  read_varints (suc n) = do x ← read_one; xs ← read_varints n; pure (value x ∷ xs)

  -- The plain loop of `readUnsigned` and `readSigned` over the same reader.
  pub read_each : ℕ → M SliceReader (List T)
  read_each zero = pure []
  read_each (suc n) = do x ← read_uvarint; xs ← read_each n; pure (value x ∷ xs)
