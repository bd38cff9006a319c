-- ===== src/Decoder/Checks.antt =====
-- decoder.go: the checks of counts and lengths, on input that is all there.
use binary.Prelude.{◌<◌, lt→ltb}
use binary.Base.{Error, err, eof}
use binary.Prelude.{some, none}
use binary.Prelude.{ℕ, zero, suc, ◌-◌, ◌*◌, ◌/◌, ◌≤◌, ◌<◌, ◌≡◌, refl, arith}
use binary.Prelude.{List, ◌++◌, length}
use binary.Prelude.{and-false, le→ltb_false, ltb, append-nil, true}
use binary.Base.{Result, ok, M, next, next-next}
use binary.Prelude.{sym}
use binary.Prelude.Int.{pos}
use binary.Decoder.{slice, read_slice, read_slice_of, read_uvarint}
use binary.Reader.View.{len-at, read-at, slice-at_short}
use binary.Stream.{max_int}
use binary.Decoder.{Decoder, decode_length, available, ensure_available, ensure_elements}
use binary.Decoder.{
  valid_length, make_slice, max_alloc, resize_slice, read_into, read_some, by_source, read_count,
}
use binary.Decoder.Laws.{Origin, in_memory, streaming, holding, read_uvarint-holding}
use binary.Varint.{uvarint_bytes}
use native.Mathlib.Nat.{le-div_iff_mul-le}

pub decode_length_fits : (n : ℕ) (d : Decoder) → n ≤ max_int → decode_length n d ≡ (ok n, d)
unfolding decode_length
decode_length_fits n d h = rw (le→ltb_false max_int n h)

pub ensure_available-holding :
    (k : Origin) (n : ℕ) (front rest : List ℕ)
    → n ≤ length rest
    → ensure_available n (holding k front rest) ≡ (ok tt, holding k front rest)
unfolding ensure_available available holding
ensure_available-holding in_memory n front rest h =
    rw (len-at front rest, le→ltb_false (length rest) n h)
ensure_available-holding (streaming e) n front rest h = refl

pub ensure_available-short :
    (n : ℕ) (front rest : List ℕ)
    → length rest < n
    → (ensure_available n (holding in_memory front rest)).0 ≡ err eof
unfolding ensure_available available holding
ensure_available-short n front rest h = rw (len-at front rest, lt→ltb (length rest) n h)

pub ensure_elements-holding :
    (k : Origin) (n min : ℕ) (front rest : List ℕ)
    → n * min ≤ length rest
    → ensure_elements n min (holding k front rest) ≡ (ok tt, holding k front rest)
unfolding ensure_elements available holding
ensure_elements-holding in_memory n zero front rest h = refl
ensure_elements-holding in_memory n (suc m) front rest h = rw (
  len-at front rest,
  le→ltb_false (length rest / suc m) n ((le-div_iff_mul-le (omega arith)).1 h),
  and-false (ltb 0 (suc m)),
)
ensure_elements-holding (streaming e) n min front rest h = refl

-- A slice of `n` elements of `size` bytes that the runtime can allocate.
make_slice_fits :
    (size n : ℕ) (d : Decoder)
    → n ≤ max_int / 2
    → n * size ≤ max_alloc
    → make_slice size n d ≡ (ok tt, d)
unfolding make_slice valid_length
make_slice_fits zero n d h g = ground arith
make_slice_fits (suc s) n d h g =
    ground (arith, le-div_iff_mul-le {k = suc s} {x = n} {y = max_int} (omega arith))

pub resize_slice_fits :
    (size n : ℕ) (d : Decoder)
    → n ≤ max_int / 2
    → n * size ≤ max_alloc
    → resize_slice size n d ≡ (ok tt, d)
unfolding resize_slice
resize_slice_fits size n d h g = ground (arith, make_slice_fits size n d h g)

pub read_into-holding :
    (bytes front rest : List ℕ)
    → 0 < length bytes
    → read_into (length bytes) (holding in_memory front (bytes ++ rest))
      ≡ (ok bytes, holding in_memory (front ++ bytes) rest)
unfolding read_into holding
read_into-holding bytes front rest h = rw (read-at front bytes rest h, none_left) (rw append-nil)
  where
    none_left : length bytes - length bytes ≡ 0
    none_left = omega arith

pub read_some-holding :
    (bytes front rest : List ℕ)
    → 0 < length bytes
    → read_some (length bytes) (holding in_memory front (bytes ++ rest))
      ≡ (ok bytes, holding in_memory (front ++ bytes) rest)
unfolding read_some holding
read_some-holding bytes front rest h = rw (read-at front bytes rest h)

pub valid_length_fits : (n : ℕ) → n ≤ max_int / 2 → valid_length 1 n ≡ true
unfolding valid_length
valid_length_fits n h = ground arith

-- A call that depends on where the bytes come from.
pub by_source-holding :
    {A : Type 0} (from_stream in_mem : M Decoder A) (front rest : List ℕ)
    (out : Origin → Result A × Decoder)
    → ((k : Origin) → from_stream (holding k front rest) ≡ out k)
    → in_mem (holding in_memory front rest) ≡ out in_memory
    → (k : Origin) → by_source from_stream in_mem (holding k front rest) ≡ out k
unfolding holding
by_source-holding f g front rest out hf hg in_memory = hg
by_source-holding f g front rest out hf hg (streaming e) = hf (streaming e)

pub read_count-holding :
    (k : Origin) (n : ℕ) (front rest : List ℕ)
    → n ≤ max_int
    → read_count (holding k front (uvarint_bytes n ++ rest))
      ≡ (ok n, holding k (front ++ uvarint_bytes n) rest)
unfolding read_count
read_count-holding k n front rest h = rw (
  read_uvarint-holding k n front rest (omega arith),
  decode_length_fits n (holding k (front ++ uvarint_bytes n) rest) h,
)

pub read_slice-read_count : (d : Decoder) → read_slice d ≡ next (read_count d) (λ n. slice (pos n))
unfolding read_slice read_slice_of read_count
read_slice-read_count d = sym (next-next (read_uvarint d) decode_length (λ n. slice (pos n)))

-- A slice of more bytes than there are.
pub slice-short :
    (n : ℕ) (front rest : List ℕ)
    → length rest < n
    → (slice (pos n) (holding in_memory front rest) ≡ (err eof, holding in_memory front rest))
      × (ensure_available n (holding in_memory front rest)
          ≡ (err eof, holding in_memory front rest))
unfolding slice ensure_available available holding
slice-short n front rest h =
    (rw (slice-at_short front rest n h), rw (len-at front rest, lt→ltb (length rest) n h))

pub available-holding :
    (e : Error) (front rest : List ℕ)
    → (available (holding in_memory front rest) ≡ some (length rest))
      × (available (holding (streaming e) front rest) ≡ none)
unfolding available holding
available-holding e front rest = (rw (len-at front rest), refl)
