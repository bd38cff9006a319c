-- ===== src/Sorted/Counters.antt =====
-- sorted/counters.go: pairs of a time and a counter. `sort.Sort` orders them by their times through calls
-- of `Swap`. Which calls it makes is a parameter: it leaves open how pairs of the same time come to stand.
pub mod Pairs
pub mod Laws
use binary.Prelude.{
  ℕ, ◌/◌, ◌==◌, ltb, zero, suc, get_elem?, Option, none, some, length, if◌then◌else◌, List, [], ◌∷◌,
  ◌++◌, Bool, true, false, not,
}
use binary.Prelude.Int.{pos}
use binary.Base.{invalid_varint, mismatched_series, ok, err, M, ◌>>=◌, ◌>>◌, next, pure, check}
use binary.Encoder.{Encoder, write, write_uvarint}
use binary.Decoder.{Decoder, read_count, slice}
use binary.Codec.Loops.{emit}
use binary.Sorted.{append_uint_deltas, is_sorted, read_delta}
use binary.Decoder.Safety.{Safe, pure-Safe, if-Safe, bind-Safe, then-Safe, check-Safe, value-Safe}
use binary.Decoder.Safety.Calls.{read_count-Safe, slice-Safe}
use binary.Sorted.Returns.{Returns, read_delta-Returns}
use binary.Base.{next-returns}

pub record TimeCounters : Type 0 where
  pub times : List ℕ
  pub counters : List ℕ

-- `xs[i], xs[j] = xs[j], xs[i]`; `sort.Sort` asks for positions in the slice only.
put_at : ℕ → ℕ → List ℕ → List ℕ
put_at i x [] = []
put_at zero x (y ∷ ys) = x ∷ ys
put_at (suc i) x (y ∷ ys) = y ∷ put_at i x ys

pub exchange : Option ℕ → Option ℕ → ℕ → ℕ → List ℕ → List ℕ
unfolding put_at
exchange (some x) (some y) i j xs = put_at j x (put_at i y xs)
exchange x y i j xs = xs

-- `Swap`
unfoldable pub swap : ℕ → ℕ → TimeCounters → TimeCounters
unfolding exchange
swap i j s = record {
  times = exchange (get_elem? s.times i) (get_elem? s.times j) i j s.times;
  counters = exchange (get_elem? s.counters i) (get_elem? s.counters j) i j s.counters;
}

unfoldable pub swap_all : List (ℕ × ℕ) → TimeCounters → TimeCounters
swap_all [] s = s
swap_all ((i, j) ∷ calls) s = swap_all calls (swap i j s)

-- The calls of `Swap` that `sort.Sort` makes on a series.
module _ (sort_calls : TimeCounters → List (ℕ × ℕ)) where
  -- The series as it is written, and as the caller's slices are left.
  pub by_time : TimeCounters → TimeCounters
  unfolding swap_all
  by_time s = if is_sorted s.times then s else swap_all (sort_calls s) s

  -- `EncodeTo` of `tczCodec`
  pub encode_counters : TimeCounters → M Encoder (Unit {0})
  unfolding by_time
  encode_counters s = do
    check (not (length s.times == length s.counters)) mismatched_series
    let ordered = by_time s
    let buffer = append_uint_deltas 0 ordered.times ++ append_uint_deltas 0 ordered.counters
    emit (write_uvarint (length ordered.times))
    emit (write_uvarint (length buffer))
    emit (write buffer)

-- The two calls of `readDelta` over the buffer.
read_both : ℕ → M (List ℕ) TimeCounters
read_both n = do
  ts ← read_delta n 0
  vs ← read_delta n 0
  pure (record { times = ts; counters = vs })

-- `DecodeTo` of `tczCodec`, into a fresh target.
pub decode_counters : M Decoder TimeCounters
unfolding read_both
decode_counters = do
  n ← read_count
  size ← read_count
  check (ltb (size / 2) n) invalid_varint
  buffer ← slice (pos size)
  λ d. ((read_both n buffer).0, d)

read_both-Returns : (n : ℕ) → Returns (read_both n)
unfolding read_both
read_both-Returns n b =
    next-returns (read_delta n 0 b) _ (read_delta-Returns n 0 b)
      λ ts r e. next-returns (read_delta n 0 r) _ (read_delta-Returns n 0 r) (λ vs q g p. cc)

pub decode_counters-Safe : Safe decode_counters
unfolding decode_counters
decode_counters-Safe = bind-Safe read_count-Safe λ n. bind-Safe read_count-Safe λ size.
    then-Safe (check-Safe (ltb (size / 2) n) invalid_varint) (
      bind-Safe (slice-Safe (pos size))
        λ buffer. value-Safe (read_both n buffer).0 (read_both-Returns n buffer))
