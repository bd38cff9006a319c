-- ===== src/Examples.antt =====
-- The laws at work on small values.
mod Bytes
mod Deltas
mod Lengths
mod Maps
mod Series
mod Offsets
mod Types
mod Calls
mod Nocopy
mod Custom
use binary.Prelude.{Option, none}
use binary.Reader
use binary.Decoder.{memory}
use binary.Codec.Strings.{decode_strings, wire_strings, decode_strings-Decodes}
use binary.Codec.Pointer.{decode_slice_of_ptr, wire_slice_of_ptr, decode_slice_of_ptr-Decodes}
use binary.Codec.Bytes.{decode_bytes, wire_bytes}
use binary.Codec.Bounds.{decode_strings-le, decode_slice_of_ptr-le}
use mathlib.Core.List.{Perm}
use binary.Prelude.{◌≢◌}
use binary.Encoder.{Encoder}
use binary.Prelude.Int.{ℤ}
use binary.Base.{panic}
use binary.Sorted.{encode_uints, decode_uints, encode_ints, decode_ints, sort, leb_int, is_sorted}
use binary.Sorted.{encode_timestamps, decode_timestamps}
use binary.Sorted.{decode_uint_deltas, decode_int_deltas, count_varints}
use binary.Sorted.Laws.{decode_uints-encode_uints, decode_ints-encode_ints, decode_deltas-returns}
use binary.Sorted.Timestamps.{decode_timestamps-encode_timestamps}
use binary.Sorted.Order.{sort-is_sorted}
use binary.Sorted.Counters.{decode_counters}
use binary.Sorted.Series.{decode_series}
use binary.Sorted.Safety.{sorted-Moves}
use binary.Sorted.Timestamps.{in_order}
use binary.Prelude.{
  ℕ, ◌^◌, ◌<◌, ◌≤◌, ◌≡◌, refl, arith, List, [], ◌∷◌, ◌++◌, All, length, take, replicate,
}
use binary.Prelude.{some, leb, ◌-◌, if◌then◌else◌, true, false}
use binary.Prelude.Int.{pos, negsuc}
use binary.Base.{eof, ok, err, short_write, nil_writer, wire_each}
use binary.Varint.{uvarint_bytes, varint_bytes, uvarint_size, fold_sign, decode_varint}
use binary.Varint.Shape.{uvarint_size-length}
use binary.Varint.Zigzag.{decode_varint-fold_sign}
use binary.Reader.{SliceReader, read_uvarint, read_varint, slice}
use binary.Reader.View.{at}
use binary.Reader.Uvarint.{read_varint-at}
use binary.Reader.Safety.{Advances, read_uvarint-Advances, slice-Advances}
use binary.Reader.Bulk.{read_varints, read_each, varint_value}
use binary.Reader.Bulk.Laws.{read_varints-eq-read_each, read_varints-at}
use binary.Encoder.{buffer, pipe, absent, new_encoder, write, write_tagged, little_endian}
use binary.Encoder.Laws.{write-write, write_tagged_lem}
use binary.Decoder.{Decoder, Input, io_reader, new_decoder, read_fixed, read_tagged}
use binary.Decoder
use binary.Decoder.Laws.{in_memory, streaming, holding, read_fixed-holding, read_tagged-holding}
use binary.Decoder.Laws.{read_uvarint-holding}
use binary.Codec.{Codec, Val, primitive, pointer, collection, struct, field, skipped, no_fields}
use binary.Codec.{slice_of, array_of, string, int, bool, w16, zero_value}
use binary.Codec.Estimates.{wire_min_bytes, is_zero_wire}
use binary.Codec.Key.{same_key, same_int, same_bytes}
use binary.Codec.Primitive.{wire_kind}
use binary.Encoder.{bool_byte}
use binary.Codec.Tree.{encode, decode, wire}
use binary.Codec.Tree.Fits.{Fits, IsCodec}
use binary.Codec.Delivery.{finish, kept}
use binary.Codec.{Arms, arm, no_arms, union, map_of, string_map, int_key, i16, plain_uint64}
use binary.Codec.RoundTrip.{decode_lem}
use binary.Codec.Written.{encode_lem}
use binary.Codec.MinBytes.{min_le, zero_wire}
use binary.Decoder.Safety.{Moves}
use binary.Codec.Tree.Safety.{decode-Moves}
use binary.Marshal.{marshal, marshal_to, unmarshal, decode_from}
use binary.Marshal.Laws.{
  unmarshal-marshal, marshal_to-pipe, decode_from-stream, wire_unique, marshal_to-absent,
}

-- struct { Name string; Change *int16; hidden int; Flags []struct{ Set bool } }
abbrev flag : Codec
flag = struct (field (primitive bool) no_fields)

-- union { Text *string `binary:"1"`; Flag *struct{ Set bool } `binary:"200"` }
abbrev choice : Arms
choice = arm 1 (primitive string) (arm 200 flag no_arms)

abbrev entry : Codec
entry = struct (
    field (primitive string) (
      field (pointer (primitive (int w16))) (
        skipped (
          field (collection (slice_of 1) flag) (
            field (map_of (int_key i16) flag)
              (field (string_map plain_uint64) (field (union choice) no_fields)))))))

abbrev flags : List (ℤ × Val flag)
flags = (negsuc 2, (true, tt)) ∷ (pos 7, (false, tt)) ∷ []

abbrev counts : List (List ℕ × ℕ)
counts = ([], 300) ∷ (97 ∷ [], 0) ∷ []

abbrev chosen : Val (union choice)
chosen = (none, (some (true, tt), tt))

abbrev sample : Val entry
sample = (
  104 ∷ 105 ∷ [],
  (some (negsuc 4), ((true, tt) ∷ (false, tt) ∷ [], (flags, (counts, (chosen, tt))))),
)

entry-IsCodec : IsCodec entry
entry-IsCodec = (
  tt,
  (
    tt,
    (
      (tt, tt),
      (
        (tt, tt),
        (
          tt,
          (
            (
              (
                omega arith,
                omega arith,
                ((λ e. absurd (omega arith)), tt),
                (omega arith, omega arith, tt, tt),
              ),
              (tt, ((tt, tt), tt)),
            ),
            tt,
          ),
        ),
      ),
    ),
  ),
)

flags-Fits : Fits (map_of (int_key i16) flag) flags
unfolding same_key same_int
flags-Fits = (
  (omega arith, (omega arith, tt)),
  ((tt, tt), ((tt, tt), tt)),
  ((refl, tt), (tt, tt)),
  omega arith,
)

counts-Fits : Fits (string_map plain_uint64) counts
unfolding same_key same_bytes
counts-Fits = (
  (omega arith, (omega arith, tt)),
  (omega arith, (omega arith, tt)),
  ((refl, tt), (tt, tt)),
  omega arith,
)

sample-Fits : Fits entry sample
unfolding wire wire_kind bool_byte
sample-Fits = (
  omega arith,
  (
    omega arith,
    (
      ((omega arith, omega arith), ((tt, tt), ((tt, tt), tt))),
      (flags-Fits, (counts-Fits, ((omega arith, ((tt, tt), omega arith, tt)), tt))),
    ),
  ),
)

-- [3]struct{ hidden int }
abbrev nothings : Codec
nothings = collection (array_of 3) (struct (skipped no_fields))

abbrev three : Val nothings
three = tt ∷ tt ∷ tt ∷ []

three-Fits : Fits nothings three
three-Fits = (refl, (tt, (tt, (tt, tt))))

unmarshal-marshal_example :
    (output : List ℕ) × (marshal entry sample ≡ ok output)
    × (unmarshal entry (output ++ (7 ∷ [])) ≡ ok sample)
unmarshal-marshal_example = unmarshal-marshal entry sample entry-IsCodec sample-Fits (7 ∷ [])

decode_lem_example :
    decode entry (holding in_memory (1 ∷ []) (wire entry sample ++ (9 ∷ [])))
    ≡ (ok sample, holding in_memory ((1 ∷ []) ++ wire entry sample) (9 ∷ []))
decode_lem_example = decode_lem entry sample entry-IsCodec sample-Fits in_memory (1 ∷ []) (9 ∷ [])

encode_lem_example :
    finish (encode entry sample) (new_encoder (pipe 3 []))
    ≡ kept (write (wire entry sample) (new_encoder (pipe 3 [])))
encode_lem_example = encode_lem entry sample entry-IsCodec sample-Fits (new_encoder (pipe 3 []))

marshal_to-pipe_example : marshal_to entry sample (pipe 4 (0 ∷ [])) ≡ (
    if leb (length (wire entry sample)) 4
    then (ok tt, pipe (4 - length (wire entry sample)) ((0 ∷ []) ++ wire entry sample))
    else (err short_write, pipe 0 ((0 ∷ []) ++ take 4 (wire entry sample))))
marshal_to-pipe_example = marshal_to-pipe entry sample entry-IsCodec sample-Fits 4 (0 ∷ [])

decode_from-stream_example :
    decode_from entry (io_reader (record { bytes = wire entry sample ++ (7 ∷ []); failure = eof }))
    ≡ (ok sample, new_decoder (io_reader (record { bytes = 7 ∷ []; failure = eof })))
decode_from-stream_example = decode_from-stream entry sample entry-IsCodec sample-Fits eof (7 ∷ [])

min_le_example : wire_min_bytes entry ≤ length (wire entry sample)
min_le_example = min_le entry sample sample-Fits

zero_wire_example : (three ≡ zero_value nothings) × (wire nothings three ≡ [])
zero_wire_example = zero_wire nothings three (unfold is_zero_wire in refl) three-Fits

-- A decoder in the middle of bytes that are no message.
abbrev junk : Decoder
junk = memory (record { buffer = 9 ∷ 255 ∷ 255 ∷ 3 ∷ []; offset = 1 })

decode-Moves_example : Moves junk (decode entry junk)
decode-Moves_example = decode-Moves entry junk entry-IsCodec (omega arith)

sorted-Moves_example :
    Moves junk (decode_uints 16 junk)
    × Moves junk (decode_ints 16 junk)
    × Moves junk (decode_timestamps junk)
    × Moves junk (decode_counters junk)
    × Moves junk (decode_series (λ x. x) junk)
sorted-Moves_example = sorted-Moves 16 (λ x. x) junk (omega arith)
