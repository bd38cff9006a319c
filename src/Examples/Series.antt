-- ===== src/Examples/Series.antt =====
-- Series of counters and of values.
use binary.Prelude.{ℕ, ◌≡◌, refl, arith, List, [], ◌∷◌, ◌++◌}
use binary.Base.{ok, eof}
use binary.Encoder.{Encoder, write}
use binary.Prelude.{◌%◌, ◌^◌}
use binary.Decoder.Laws.{in_memory, streaming, holding}
use mathlib.Core.List.{Perm}
use binary.Sorted.Counters.Pairs.{pairs}
use binary.Sorted.Series.{TimeSeries, series_by_time, encode_series, decode_series}
use binary.Sorted.Series.Laws.{cut_values, decode_series-encode_series}
use binary.Sorted.Counters.{TimeCounters, by_time, encode_counters, decode_counters, swap, swap_all}
use binary.Sorted.Counters.Laws.{IsSeries, decode_counters-encode_counters}

abbrev visits : TimeCounters
visits = record { times = 300 ∷ 100 ∷ 200 ∷ []; counters = 7 ∷ 5 ∷ 2 ∷ [] }

abbrev sorted_visits : TimeCounters
sorted_visits = record { times = 100 ∷ 200 ∷ 300 ∷ []; counters = 5 ∷ 2 ∷ 7 ∷ [] }

-- The calls of `Swap` that sort the three.
abbrev calls : TimeCounters → List (ℕ × ℕ)
calls s = (0, 1) ∷ (1, 2) ∷ []

calls_sort : swap_all (calls visits) visits ≡ sorted_visits
unfolding swap_all swap
calls_sort = refl

visits-IsSeries : IsSeries visits
visits-IsSeries = (
  refl,
  (omega arith, (omega arith, (omega arith, tt))),
  (omega arith, (omega arith, (omega arith, tt))),
)

decode_counters-encode_counters_example :
    (bytes : List ℕ) × ((e : Encoder) → encode_counters calls visits e ≡ (ok tt, write bytes e))
    × (decode_counters (holding (streaming eof) [] (bytes ++ (1 ∷ [])))
        ≡ (ok (by_time calls visits), holding (streaming eof) ([] ++ bytes) (1 ∷ [])))
    × Perm
        (pairs (by_time calls visits).times (by_time calls visits).counters)
        (pairs visits.times visits.counters)
decode_counters-encode_counters_example =
    decode_counters-encode_counters calls visits (streaming eof) [] (1 ∷ []) visits-IsSeries
      (omega arith)

abbrev heat : TimeSeries
heat = record { times = 9 ∷ 4 ∷ []; values = 70000 ∷ 3 ∷ [] }

-- A cut to 32 bits in the place of the conversion.
abbrev low_bits : ℕ → ℕ
low_bits v = v % 2 ^ 32

abbrev the_same : ℕ → ℕ
the_same b = b

abbrev one_call : TimeSeries → List (ℕ × ℕ)
one_call s = (1, 0) ∷ []

decode_series-encode_series_example :
    (bytes : List ℕ) × ((e : Encoder)
      → encode_series low_bits one_call heat e ≡ (ok tt, write bytes e))
    × (decode_series the_same (holding in_memory [] (bytes ++ (1 ∷ []))) ≡ (
      ok (cut_values low_bits the_same (series_by_time one_call heat)),
      holding in_memory ([] ++ bytes) (1 ∷ []),
    ))
    × Perm
        (pairs (series_by_time one_call heat).times (series_by_time one_call heat).values)
        (pairs heat.times heat.values)
decode_series-encode_series_example =
    decode_series-encode_series low_bits the_same (λ v. omega arith) one_call heat in_memory []
      (1 ∷ []) (refl, (omega arith, (omega arith, tt))) (omega arith)
