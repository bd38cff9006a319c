-- ===== src/Sorted/Series/Laws.antt =====
-- `tszCodec` against its wire format.
use binary.Prelude.{
  ℕ, ◌/◌, ◌%◌, ◌^◌, ◌*◌, ◌≤◌, ◌<◌, ◌≡◌, refl, sym, ◌∙◌, arith, length, All, map, ◌==◌, true,
}
use binary.Prelude.{
  List, [], ◌∷◌, ◌++◌, append_assoc, append-nil, length-append, le→ltb_false, Bool-cases, inl, inr,
}
use Prim.Native.Nat.{bit_xor}
use binary.Prelude.Bits.{bit_xor_self, bit_xor-lt}
use binary.Base.{ok, IsU64}
use binary.Varint.{uvarint_bytes}
use binary.Varint.Shape.{length-uvarint_bytes}
use binary.Encoder.{Encoder, write}
use binary.Encoder.Laws.{write-write, write_uvarint_lem}
use binary.Stream.{max_int}
use binary.Decoder.Laws.{Origin, holding, slice-holding}
use binary.Decoder.Checks.{read_count-holding}
use binary.Sorted.{append_uint_deltas, is_sorted}
use binary.Sorted.Scan.{uvarint_lem}
use binary.Sorted.Deltas.{read_delta-append_uint_deltas}
use binary.Sorted.Laws.{length-uint_deltas_le}
use binary.Sorted.Timestamps.{length-append_uint_deltas}
use binary.Sorted.Counters.Laws.{length-exchange, All-exchange, get_elem?-Holds}
use binary.Sorted.Reversal.{reverse32, reverse_bits-lt, reverse_bits_twice}
use mathlib.Core.List.{Perm}
use mathlib.Core.List.Perm
use binary.Sorted.Counters.Pairs.{pairs, exchange-Perm}
use binary.Sorted.Series.{
  TimeSeries, swap_points, swap_all_points, series_by_time, append_xors, encode_series, read_xors,
  read_series, decode_series,
}

-- As many values as times, which are uint64.
abbrev pub IsTimeSeries : TimeSeries → Type 0
IsTimeSeries s = (length s.times ≡ length s.values) × All IsU64 s.times

swap_points-IsTimeSeries :
    (i j : ℕ) (s : TimeSeries) → IsTimeSeries s → IsTimeSeries (swap_points i j s)
unfolding swap_points
swap_points-IsTimeSeries i j s (same, ts) = (
  length-exchange _ _ i j s.times ∙ same ∙ sym (length-exchange _ _ i j s.values),
  All-exchange IsU64 _ _ i j s.times (get_elem?-Holds IsU64 i s.times ts)
      (get_elem?-Holds IsU64 j s.times ts) ts,
)

length-swap_points : (i j : ℕ) (s : TimeSeries) → length (swap_points i j s).times ≡ length s.times
unfolding swap_points
length-swap_points i j s = length-exchange _ _ i j s.times

swap_all_points-IsTimeSeries :
    (calls : List (ℕ × ℕ)) (s : TimeSeries)
    → IsTimeSeries s
    → IsTimeSeries (swap_all_points calls s)
      × (length (swap_all_points calls s).times ≡ length s.times)
unfolding swap_all_points
swap_all_points-IsTimeSeries [] s h = (h, refl)
swap_all_points-IsTimeSeries ((i, j) ∷ calls) s h =
    let (series, same) =
      swap_all_points-IsTimeSeries calls (swap_points i j s) (swap_points-IsTimeSeries i j s h) in
    (series, same ∙ length-swap_points i j s)

series_by_time-IsTimeSeries :
    (sort_calls : TimeSeries → List (ℕ × ℕ)) (s : TimeSeries)
    → IsTimeSeries s
    → IsTimeSeries (series_by_time sort_calls s)
      × (length (series_by_time sort_calls s).times ≡ length s.times)
unfolding series_by_time
series_by_time-IsTimeSeries sort_calls s h = elim (Bool-cases (is_sorted s.times)) [
  | inl t ↦ rw t (h, refl)
  | inr f ↦ rw f (swap_all_points-IsTimeSeries (sort_calls s) s h)
]

swap_points-Perm :
    (i j : ℕ) (s : TimeSeries)
    → length s.times ≡ length s.values
    → Perm (pairs (swap_points i j s).times (swap_points i j s).values) (pairs s.times s.values)
unfolding swap_points
swap_points-Perm i j s h = exchange-Perm i j s.times s.values h

swap_all_points-Perm :
    (calls : List (ℕ × ℕ)) (s : TimeSeries)
    → IsTimeSeries s
    → Perm
        (pairs (swap_all_points calls s).times (swap_all_points calls s).values)
        (pairs s.times s.values)
unfolding swap_all_points
swap_all_points-Perm [] s h = Perm.refl (pairs s.times s.values)
swap_all_points-Perm ((i, j) ∷ calls) s h =
    Perm.trans (swap_all_points-Perm calls (swap_points i j s) (swap_points-IsTimeSeries i j s h))
      (swap_points-Perm i j s h.0)

series_by_time-Perm :
    (sort_calls : TimeSeries → List (ℕ × ℕ)) (s : TimeSeries)
    → IsTimeSeries s
    → Perm
        (pairs (series_by_time sort_calls s).times (series_by_time sort_calls s).values)
        (pairs s.times s.values)
unfolding series_by_time
series_by_time-Perm sort_calls s h = elim (Bool-cases (is_sorted s.times)) [
  | inl t ↦ rw t (Perm.refl (pairs s.times s.values))
  | inr f ↦ rw f (swap_all_points-Perm (sort_calls s) s h)
]

-- The values as they come back, cut to a float32.
pub cut_values : (ℕ → ℕ) → (ℕ → ℕ) → TimeSeries → TimeSeries
cut_values narrow widen s = record {
  times = s.times;
  values = map (λ v. widen (narrow v)) s.values;
}

module _ (narrow widen : ℕ → ℕ) (narrow-lt : (v : ℕ) → narrow v < 2 ^ 32) where
  length-append_xors :
      (prev : ℕ) (vs : List ℕ)
      → (length vs ≤ length (append_xors narrow prev vs))
        × (length (append_xors narrow prev vs) ≤ 10 * length vs)
  unfolding append_xors
  length-append_xors prev [] = (omega arith, omega arith)
  length-append_xors prev (v ∷ vs) =
      let curr = reverse32 (narrow v) in
      let size = length-uvarint_bytes (bit_xor curr prev) in
      let rest = length-append_xors curr vs in
      rw (length-append (uvarint_bytes (bit_xor curr prev)) (append_xors narrow curr vs))
        (omega (arith, size, rest), omega (arith, size, rest))

  read_xors-append_xors :
      (prev : ℕ) (vs rest : List ℕ)
      → prev < 2 ^ 32
      → read_xors widen (length vs) prev (append_xors narrow prev vs ++ rest)
        ≡ (ok (map (λ v. widen (narrow v)) vs), rest)
  unfolding read_xors append_xors
  read_xors-append_xors prev [] rest h = refl
  read_xors-append_xors prev (v ∷ vs) rest h =
      let curr = reverse32 (narrow v) in
      let small : curr < 2 ^ 32 = reverse_bits-lt 32 (narrow v) in
      let diff : bit_xor curr prev < 2 ^ 32 = bit_xor-lt 32 curr prev small h in
      let same : curr % 2 ^ 32 ≡ curr = omega arith in
      rw (
        append_assoc,
        uvarint_lem (bit_xor curr prev) (append_xors narrow curr vs ++ rest) (omega arith),
        bit_xor_self curr prev,
        read_xors-append_xors curr vs rest small,
        same,
        reverse_bits_twice 32 (narrow v) (narrow-lt v),
      )

  body : TimeSeries → List ℕ
  body s = append_uint_deltas 0 s.times ++ append_xors narrow 0 s.values

  wire_series : TimeSeries → List ℕ
  unfolding body
  wire_series s = uvarint_bytes (length s.times) ++ (uvarint_bytes (length (body s)) ++ body s)

  read_series-body :
      (s : TimeSeries)
      → IsTimeSeries s
      → (read_series widen (length s.times) (body s)).0 ≡ ok (cut_values narrow widen s)
  unfolding read_series body cut_values
  read_series-body s (same, ts) =
      let second = read_xors-append_xors 0 s.values [] (omega arith) in
      rw (
        read_delta-append_uint_deltas 0 s.times (append_xors narrow 0 s.values) (omega arith) ts,
        same,
        rw append-nil at second,
      )

  length-body :
      (s : TimeSeries)
      → length s.times ≡ length s.values
      → (2 * length s.times ≤ length (body s)) × (length (body s) ≤ 20 * length s.times)
  unfolding body
  length-body s same =
      let times = length-append_uint_deltas 0 s.times in
      let most = length-uint_deltas_le 0 s.times in
      let values = length-append_xors 0 s.values in
      rw (length-append (append_uint_deltas 0 s.times) (append_xors narrow 0 s.values))
        (omega (arith, times, values, same), omega (arith, most, values, same))

  decode_series_lem :
      (s : TimeSeries) (k : Origin) (front rest : List ℕ)
      → IsTimeSeries s
      → 20 * length s.times ≤ max_int / 2
      → decode_series widen (holding k front (wire_series s ++ rest))
        ≡ (ok (cut_values narrow widen s), holding k (front ++ wire_series s) rest)
  unfolding decode_series wire_series
  decode_series_lem s k front rest h g =
      let b : List ℕ = body s in
      let n = length s.times in
      let front' : List ℕ = front ++ uvarint_bytes n in
      let size = length-body s h.0 in
      rw (
        append_assoc,
        append_assoc,
        read_count-holding k n front (uvarint_bytes (length b) ++ (b ++ rest)) (omega arith),
        read_count-holding k (length b) front' (b ++ rest) (omega (arith, size)),
        le→ltb_false (length b / 2) n (omega (arith, size)),
        slice-holding k b (front' ++ uvarint_bytes (length b)) rest (omega (arith, size)),
        read_series-body s h,
        append_assoc,
        append_assoc,
      )

  encode_series_lem :
      (sort_calls : TimeSeries → List (ℕ × ℕ)) (s : TimeSeries) (e : Encoder)
      → length s.times ≡ length s.values
      → encode_series narrow sort_calls s e
        ≡ (ok tt, write (wire_series (series_by_time sort_calls s)) e)
  unfolding encode_series wire_series body
  encode_series_lem sort_calls s e h =
      let passes : (length s.times == length s.values) ≡ true = ground arith in
      rw (passes, write_uvarint_lem, write_uvarint_lem, write-write, write-write)

  -- For times and values of the same number, in any order and whatever calls of Swap sort them, EncodeTo
  -- writes bytes from which DecodeTo makes the series as the sort leaves it, each value cut to a float32
  -- and back, in memory and from a stream, and stops right behind them. The pairs of a time and a value at
  -- the same place of the sorted series are the pairs of the given one, each as often as there. Times are
  -- uint64, the conversion to a float32 gives a pattern of 32 bits, and twenty bytes for each pair are at
  -- most half of what an int counts.
  pub decode_series-encode_series :
      (sort_calls : TimeSeries → List (ℕ × ℕ)) (s : TimeSeries) (k : Origin) (front rest : List ℕ)
      → IsTimeSeries s
      → 20 * length s.times ≤ max_int / 2
      → (bytes : List ℕ) × ((e : Encoder)
          → encode_series narrow sort_calls s e ≡ (ok tt, write bytes e))
        × (decode_series widen (holding k front (bytes ++ rest)) ≡ (
          ok (cut_values narrow widen (series_by_time sort_calls s)),
          holding k (front ++ bytes) rest,
        ))
        × Perm
            (pairs (series_by_time sort_calls s).times (series_by_time sort_calls s).values)
            (pairs s.times s.values)
  decode_series-encode_series sort_calls s k front rest h g =
      let (series, same) = series_by_time-IsTimeSeries sort_calls s h in
      (
        wire_series (series_by_time sort_calls s),
        (λ e. encode_series_lem sort_calls s e h.0),
        decode_series_lem (series_by_time sort_calls s) k front rest series (omega arith),
        series_by_time-Perm sort_calls s h,
      )
