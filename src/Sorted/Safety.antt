-- ===== src/Sorted/Safety.antt =====
-- sorted/codecs.go, sorted/counters.go and sorted/timeseries.go: DecodeTo on any input.
use binary.Prelude.{ℕ, List, ltb, ◌==◌, ◌≢◌}
use binary.Prelude.Int.{pos}
use binary.Base.{invalid_varint, panic, M}
use binary.Decoder.{Decoder}
use binary.Decoder.Safety.{Moves, IsSound}
use binary.Decoder.Safety.{Safe, pure-Safe, if-Safe, bind-Safe, then-Safe, check-Safe, value-Safe}
use binary.Decoder.Safety.Calls.{read_count-Safe, slice-Safe}
use binary.Sorted.{
  decode_uint_deltas, decode_int_deltas, count_varints, decode_slice, decode_uints, decode_ints,
  decode_timestamps, read_delta,
}
use binary.Sorted.Laws.{decode_deltas-returns}
use binary.Sorted.Returns.{read_delta-Returns}
use binary.Sorted.Counters.{decode_counters, decode_counters-Safe}
use binary.Sorted.Series.{decode_series, decode_series-Safe}

decode_slice-Safe :
    {T : Type 0} (deltas : ℕ → M (List ℕ) (List T))
    → ((b : List ℕ) → (deltas (count_varints b) b).0 ≢ panic)
    → Safe (decode_slice deltas)
unfolding decode_slice
decode_slice-Safe deltas h = bind-Safe read_count-Safe λ n.
    if-Safe (n == 0) (pure-Safe _)
      (bind-Safe (slice-Safe (pos n)) (λ b. value-Safe (deltas (count_varints b) b).0 (h b)))

integers-Safe : (w : ℕ) → Safe (decode_uints w) × Safe (decode_ints w)
unfolding decode_uints decode_ints
integers-Safe w = (
  decode_slice-Safe (decode_uint_deltas w) (λ b. (decode_deltas-returns w b).0),
  decode_slice-Safe (decode_int_deltas w) (λ b. (decode_deltas-returns w b).1),
)

timestamps-Safe : Safe decode_timestamps
unfolding decode_timestamps
timestamps-Safe = bind-Safe read_count-Safe λ n. bind-Safe read_count-Safe λ size.
    then-Safe (check-Safe (ltb size n) invalid_varint) (
      bind-Safe (slice-Safe (pos size))
        λ buffer. value-Safe (read_delta n 0 buffer).0 (read_delta-Returns n 0 buffer))

-- DecodeTo of every codec of the package, on any bytes, in memory from a position inside the buffer or from
-- a stream, does not panic, keeps the buffer, and moves forward only and not past the end: the slices
-- that it makes have room for all that it writes to them.
pub sorted-Moves :
    (w : ℕ) (widen : ℕ → ℕ) (d : Decoder)
    → IsSound d
    → Moves d (decode_uints w d)
      × Moves d (decode_ints w d)
      × Moves d (decode_timestamps d)
      × Moves d (decode_counters d)
      × Moves d (decode_series widen d)
sorted-Moves w widen d v = (
  (integers-Safe w).0.moves d v,
  (integers-Safe w).1.moves d v,
  timestamps-Safe.moves d v,
  decode_counters-Safe.moves d v,
  (decode_series-Safe widen).moves d v,
)
