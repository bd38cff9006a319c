-- ===== src/Sorted/Series.antt =====
-- sorted/timeseries.go: pairs of a time and a float64, which is cut to a float32. The two conversions of
-- floats, on the patterns of their bits, and the calls of `Swap` that `sort.Sort` makes are parameters.
pub mod Laws
use binary.Prelude.{
  ℕ, zero, suc, ◌/◌, ◌%◌, ◌^◌, ◌==◌, ltb, get_elem?, Option, length, if◌then◌else◌, List, [], ◌∷◌,
  ◌++◌, not,
}
use Prim.Native.Nat.{bit_xor}
use binary.Prelude.Int.{pos}
use binary.Base.{invalid_varint, mismatched_series, ok, err, M, ◌>>=◌, ◌>>◌, next, pure, check}
use binary.Varint.{uvarint_bytes}
use binary.Encoder.{Encoder, write, write_uvarint}
use binary.Decoder.{Decoder, read_count, slice}
use binary.Codec.Loops.{emit}
use binary.Sorted.{append_uint_deltas, is_sorted, read_delta, uvarint}
use binary.Sorted.Counters.{exchange}
use binary.Sorted.Reversal.{reverse32}
use binary.Decoder.Safety.{Safe, pure-Safe, if-Safe, bind-Safe, then-Safe, check-Safe, value-Safe}
use binary.Decoder.Safety.Calls.{read_count-Safe, slice-Safe}
use binary.Sorted.Returns.{Returns, read_delta-Returns, uvarint-Returns}
use binary.Base.{next-returns}

pub record TimeSeries : Type 0 where
  pub times : List ℕ
  pub values : List ℕ

-- `Swap`
pub swap_points : ℕ → ℕ → TimeSeries → TimeSeries
swap_points i j s = record {
  times = exchange (get_elem? s.times i) (get_elem? s.times j) i j s.times;
  values = exchange (get_elem? s.values i) (get_elem? s.values j) i j s.values;
}

pub swap_all_points : List (ℕ × ℕ) → TimeSeries → TimeSeries
unfolding swap_points
swap_all_points [] s = s
swap_all_points ((i, j) ∷ calls) s = swap_all_points calls (swap_points i j s)

module _ (sort_calls : TimeSeries → List (ℕ × ℕ)) where
  -- The series as it is written, and as the caller's slices are left.
  pub series_by_time : TimeSeries → TimeSeries
  unfolding swap_all_points
  series_by_time s = if is_sorted s.times then s else swap_all_points (sort_calls s) s

module _ (narrow : ℕ → ℕ) where
  -- `math.Float32bits(float32(v))` is `narrow v`.
  pub append_xors : ℕ → List ℕ → List ℕ
  append_xors prev [] = []
  append_xors prev (v ∷ vs) =
      let curr = reverse32 (narrow v) in uvarint_bytes (bit_xor curr prev) ++ append_xors curr vs

  -- `EncodeTo` of `tszCodec`
  pub encode_series : (TimeSeries → List (ℕ × ℕ)) → TimeSeries → M Encoder (Unit {0})
  unfolding series_by_time append_xors
  encode_series sort_calls s = do
    check (not (length s.times == length s.values)) mismatched_series
    let ordered = series_by_time sort_calls s
    let buffer = append_uint_deltas 0 ordered.times ++ append_xors 0 ordered.values
    emit (write_uvarint (length ordered.times))
    emit (write_uvarint (length buffer))
    emit (write buffer)

module _ (widen : ℕ → ℕ) where
  -- `float64(math.Float32frombits(b))` is `widen b`.
  pub read_xors : ℕ → ℕ → M (List ℕ) (List ℕ)
  read_xors zero prev = pure []
  read_xors (suc n) prev = do
    diff ← uvarint
    let curr = bit_xor prev diff
    vs ← read_xors n curr
    pure (widen (reverse32 (curr % 2 ^ 32)) ∷ vs)

  read_series : ℕ → M (List ℕ) TimeSeries
  unfolding read_xors
  read_series n = do
    ts ← read_delta n 0
    vs ← read_xors n 0
    pure (record { times = ts; values = vs })

  -- `DecodeTo` of `tszCodec`, into a fresh target.
  pub decode_series : M Decoder TimeSeries
  unfolding read_series
  decode_series = do
    n ← read_count
    size ← read_count
    check (ltb (size / 2) n) invalid_varint
    buffer ← slice (pos size)
    λ d. ((read_series n buffer).0, d)

  read_xors-Returns : (n prev : ℕ) → Returns (read_xors n prev)
  unfolding read_xors
  read_xors-Returns zero prev b = λ p. cc
  read_xors-Returns (suc n) prev b = next-returns (uvarint b) _ (uvarint-Returns b) λ diff r e.
      next-returns (read_xors n (bit_xor prev diff) r) _ (read_xors-Returns n (bit_xor prev diff) r)
        (λ vs q g p. cc)

  read_series-Returns : (n : ℕ) → Returns (read_series n)
  unfolding read_series
  read_series-Returns n b =
      next-returns (read_delta n 0 b) _ (read_delta-Returns n 0 b)
        λ ts r e. next-returns (read_xors n 0 r) _ (read_xors-Returns n 0 r) (λ vs q g p. cc)

  pub decode_series-Safe : Safe decode_series
  unfolding decode_series
  decode_series-Safe = bind-Safe read_count-Safe λ n. bind-Safe read_count-Safe λ size.
      then-Safe (check-Safe (ltb (size / 2) n) invalid_varint) (
        bind-Safe (slice-Safe (pos size))
          λ buffer. value-Safe (read_series n buffer).0 (read_series-Returns n buffer))
