-- ===== src/Sorted.antt =====
-- sorted/codecs.go and sorted/timeseries.go: slices of integers as the differences between
-- neighbours, and timestamps. `sort.Sort` is a sort by insertion here: there is one sorted order of
-- a slice of integers.
pub mod Scan
pub mod Deltas
pub mod Order
pub mod Laws
pub mod Returns
pub mod Safety
pub mod Timestamps
pub mod Counters
pub mod Reversal
pub mod Series
use binary.Prelude.{
  ℕ, zero, suc, ◌+◌, ◌-◌, ◌*◌, ◌%◌, ◌/◌, ◌^◌, leb, ltb, ◌==◌, ◌&&◌, length, replicate,
}
use binary.Prelude.{List, [], ◌∷◌, ◌++◌, if◌then◌else◌, Bool, true, false, bit_and, bit_or}
use binary.Prelude.Int.{ℤ, pos, negsuc, word, signed}
use binary.Base.{
  Error, unexpected_eof, invalid_varint, Result, ok, err, panic, M, ◌>>=◌, ◌>>◌, next, pure, fail,
  check, u64,
}
use binary.Varint.{uvarint_bytes, varint_bytes, decode_varint}
use binary.Encoder.{Encoder, write, write_uvarint}
use binary.Stream.{max_int}
use binary.Decoder.{Decoder, read_count, slice}
use binary.Codec.Loops.{emit}

-- `encoding/binary.Uvarint` at the front of a buffer, and the step past what it read: ten bytes at
-- most. Its results that are not positive are `errInvalidVarint` to all callers.
pub scan_uvarint : ℕ → ℕ → ℕ → M (List ℕ) ℕ
scan_uvarint zero shift value buffer = (err invalid_varint, buffer)
scan_uvarint (suc rounds) shift value [] = (err invalid_varint, [])
scan_uvarint (suc rounds) shift value (b ∷ rest) =
    let more =
      scan_uvarint rounds (shift + 7) (bit_or value (u64 (bit_and b 0x7f * 2 ^ shift))) rest in
    if ltb b 0x80
    then (if (shift == 63) && ltb 1 b
        then (err invalid_varint, rest)
        else (ok (bit_or value (u64 (b * 2 ^ shift))), rest))
    else more

pub uvarint : M (List ℕ) ℕ
unfolding scan_uvarint
uvarint = scan_uvarint 10 0 0

-- The wrap-around of `value-prev` and `prev += diff`, on the patterns of 64 bits.
abbrev pub sub64 : ℕ → ℕ → ℕ
sub64 a b = u64 (a + (2 ^ 64 - b))

abbrev pub add64 : ℕ → ℕ → ℕ
add64 a b = u64 (a + b)

-- `appendUintDeltas` after `prev`, and `appendDelta`, which is the same for uint64.
pub append_uint_deltas : ℕ → List ℕ → List ℕ
append_uint_deltas prev [] = []
append_uint_deltas prev (value ∷ values) =
    uvarint_bytes (sub64 value prev) ++ append_uint_deltas value values

-- `appendIntDeltas` after `prev`.
pub append_int_deltas : ℤ → List ℤ → List ℕ
append_int_deltas prev [] = []
append_int_deltas prev (value ∷ values) =
    varint_bytes (signed 64 (sub64 (word 64 value) (word 64 prev)))
    ++ append_int_deltas value values

-- `decodeUintDeltas` and `decodeIntDeltas` into a slice with room for `slots` more elements, each
-- `blank` so far. `add prev code` is `prev += diff` and `element prev` is `T(prev)`. The buffer is
-- the state; an element past the end of the slice is a panic.
module _ {T : Type 0} (add : ℕ → ℕ → ℕ) (element : ℕ → T) (blank : T) where
  pub decode_deltas : ℕ → ℕ → M (List ℕ) (List T)
  decode_deltas slots prev [] = (ok (replicate slots blank), [])
  decode_deltas zero prev (b ∷ buffer) =
      next (uvarint (b ∷ buffer)) (λ code buffer'. (panic, buffer'))
  decode_deltas (suc slots) prev (b ∷ buffer) = next (uvarint (b ∷ buffer)) λ code buffer'.
      next (decode_deltas slots (add prev code) buffer')
        (λ xs rest. (ok (element (add prev code) ∷ xs), rest))

-- The two instances, for elements of `w` bits. The sum of signed numbers is kept as its pattern.
pub decode_uint_deltas : ℕ → ℕ → M (List ℕ) (List ℕ)
unfolding decode_deltas
decode_uint_deltas w slots = decode_deltas add64 (λ prev. prev % 2 ^ w) 0 slots 0

abbrev pub add_code : ℕ → ℕ → ℕ
add_code prev code = add64 prev (word 64 (decode_varint code))

pub decode_int_deltas : ℕ → ℕ → M (List ℕ) (List ℤ)
unfolding decode_deltas
decode_int_deltas w slots = decode_deltas add_code (λ prev. signed w (prev % 2 ^ w)) (pos 0) slots 0

pub count_varints : List ℕ → ℕ
count_varints [] = 0
count_varints (v ∷ b) = let rest = count_varints b in if ltb v 0x80 then suc rest else rest

-- `sort.Sort` by a test for "not greater".
module _ {T : Type 0} (le : T → T → Bool) where
  pub insert : T → List T → List T
  insert x [] = x ∷ []
  insert x (y ∷ ys) = let rest = insert x ys in if le x y then x ∷ (y ∷ ys) else y ∷ rest

  pub sort : List T → List T
  unfolding insert
  sort [] = []
  sort (x ∷ xs) = insert x (sort xs)

pub leb_int : ℤ → ℤ → Bool
leb_int (pos a) (pos b) = leb a b
leb_int (pos a) (negsuc b) = false
leb_int (negsuc a) (pos b) = true
leb_int (negsuc a) (negsuc b) = leb b a

-- `EncodeTo` of `deltaSliceCodec`: the slice of the caller is sorted in place first.
pub encode_uints : List ℕ → M Encoder (Unit {0})
unfolding append_uint_deltas sort
encode_uints xs = do
  let bytes = append_uint_deltas 0 (sort leb xs)
  emit (write_uvarint (length bytes))
  emit (write bytes)

pub encode_ints : List ℤ → M Encoder (Unit {0})
unfolding append_int_deltas sort leb_int
encode_ints xs = do
  let bytes = append_int_deltas (pos 0) (sort leb_int xs)
  emit (write_uvarint (length bytes))
  emit (write bytes)

-- `DecodeTo` of `deltaSliceCodec`, into a fresh slice, given the loop over the differences.
decode_slice : {T : Type 0} → (ℕ → M (List ℕ) (List T)) → M Decoder (List T)
unfolding count_varints
decode_slice deltas = do
  n ← read_count
  if n == 0 then pure [] else (do b ← slice (pos n); λ d. ((deltas (count_varints b) b).0, d))

pub decode_uints : ℕ → M Decoder (List ℕ)
unfolding decode_slice decode_uint_deltas
decode_uints w = decode_slice (decode_uint_deltas w)

pub decode_ints : ℕ → M Decoder (List ℤ)
unfolding decode_slice decode_int_deltas
decode_ints w = decode_slice (decode_int_deltas w)

-- `isSorted`.
pub is_sorted : List ℕ → Bool
is_sorted [] = true
is_sorted (x ∷ []) = true
is_sorted (x ∷ y ∷ xs) = let rest = is_sorted (y ∷ xs) in if ltb y x then false else rest

-- `EncodeTo` of `timestampCodec`.
pub encode_timestamps : List ℕ → M Encoder (Unit {0})
unfolding is_sorted sort append_uint_deltas
encode_timestamps xs = do
  let times = if is_sorted xs then xs else sort leb xs
  let buffer = append_uint_deltas 0 times
  emit (write_uvarint (length times))
  emit (write_uvarint (length buffer))
  emit (write buffer)

-- `readDelta` of `n` numbers after `prev`; the buffer is the state.
pub read_delta : ℕ → ℕ → M (List ℕ) (List ℕ)
unfolding uvarint
read_delta zero prev = pure []
read_delta (suc n) prev = do
  diff ← uvarint
  xs ← read_delta n (add64 prev diff)
  pure (add64 prev diff ∷ xs)

-- `DecodeTo` of `timestampCodec`.
pub decode_timestamps : M Decoder (List ℕ)
unfolding read_delta
decode_timestamps = do
  n ← read_count
  size ← read_count
  check (ltb size n) invalid_varint
  buffer ← slice (pos size)
  λ d. ((read_delta n 0 buffer).0, d)
