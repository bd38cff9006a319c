-- ===== src/Examples/Deltas.antt =====
-- The delta codecs of package sorted at work on small slices.

use binary.Encoder.{Encoder}
use binary.Prelude.Int.{ℤ}
use binary.Sorted.{encode_uints, decode_uints, encode_ints, decode_ints, sort, leb_int}
use binary.Sorted.{encode_timestamps, decode_timestamps}
use binary.Sorted.Laws.{decode_uints-encode_uints, decode_ints-encode_ints}
use binary.Sorted.Timestamps.{decode_timestamps-encode_timestamps}
use binary.Sorted.Timestamps.{in_order}
use binary.Prelude.{ℕ, ◌≡◌, arith, List, [], ◌∷◌, ◌++◌}
use binary.Prelude.{leb}
use binary.Prelude.Int.{pos, negsuc}
use binary.Base.{eof, ok}
use binary.Encoder.{write}
use binary.Decoder.Laws.{in_memory, streaming, holding}

abbrev times : List ℕ
times = 300 ∷ 100 ∷ 100 ∷ 1000 ∷ []

decode_uints-encode_uints_example :
    (bytes : List ℕ) × ((e : Encoder) → encode_uints times e ≡ (ok tt, write bytes e))
    × (decode_uints 16 (holding in_memory [] (bytes ++ (1 ∷ [])))
        ≡ (ok (sort leb times), holding in_memory ([] ++ bytes) (1 ∷ [])))
decode_uints-encode_uints_example =
    decode_uints-encode_uints 16 times in_memory [] (1 ∷ []) (ground arith) (omega arith)

abbrev changes : List ℤ
changes = pos 3 ∷ negsuc 127 ∷ pos 127 ∷ []

decode_ints-encode_ints_example :
    (bytes : List ℕ) × ((e : Encoder) → encode_ints changes e ≡ (ok tt, write bytes e))
    × (decode_ints 8 (holding in_memory [] (bytes ++ (1 ∷ [])))
        ≡ (ok (sort leb_int changes), holding in_memory ([] ++ bytes) (1 ∷ [])))
decode_ints-encode_ints_example =
    decode_ints-encode_ints 8 changes in_memory [] (1 ∷ []) (ground arith) (omega arith)

decode_timestamps-encode_timestamps_example :
    (bytes : List ℕ) × ((e : Encoder) → encode_timestamps times e ≡ (ok tt, write bytes e))
    × (decode_timestamps (holding (streaming eof) [] (bytes ++ (1 ∷ [])))
        ≡ (ok (in_order times), holding (streaming eof) ([] ++ bytes) (1 ∷ [])))
decode_timestamps-encode_timestamps_example =
    decode_timestamps-encode_timestamps times (streaming eof) [] (1 ∷ []) (ground arith)
      (omega arith)
