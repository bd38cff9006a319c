-- ===== src/Examples/Lengths.antt =====
use binary.Prelude.{◌≡◌, arith, [], ◌∷◌, ◌++◌}
use binary.Base.{err, eof}
use binary.Varint.{uvarint_bytes}
use binary.Decoder.Laws.{in_memory, holding}
use binary.Codec.{slice_of, w16}
use binary.Codec.Bytes.{decode_bytes}
use binary.Codec.Strings.{decode_strings}
use binary.Codec.Pointer.{decode_slice_of_ptr}
use binary.Codec.Varints.{decode_varints, decode_varuints}
use binary.Codec.Bounds.{decode-too_short}

-- Four elements are promised, and there are three bytes.
decode-too_short_example :
    (decode_strings (slice_of 16) (holding in_memory [] (uvarint_bytes 4 ++ (0 ∷ 0 ∷ 0 ∷ [])))
      ≡ (err eof, holding in_memory ([] ++ uvarint_bytes 4) (0 ∷ 0 ∷ 0 ∷ [])))
    × (decode_slice_of_ptr decode_bytes (holding in_memory [] (uvarint_bytes 4 ++ (0 ∷ 0 ∷ 0 ∷ [])))
        ≡ (err eof, holding in_memory ([] ++ uvarint_bytes 4) (0 ∷ 0 ∷ 0 ∷ [])))
    × (decode_varints w16 (holding in_memory [] (uvarint_bytes 4 ++ (0 ∷ 0 ∷ 0 ∷ [])))
        ≡ (err eof, holding in_memory ([] ++ uvarint_bytes 4) (0 ∷ 0 ∷ 0 ∷ [])))
    × (decode_varuints w16 (holding in_memory [] (uvarint_bytes 4 ++ (0 ∷ 0 ∷ 0 ∷ [])))
        ≡ (err eof, holding in_memory ([] ++ uvarint_bytes 4) (0 ∷ 0 ∷ 0 ∷ [])))
decode-too_short_example =
    decode-too_short decode_bytes 16 4 w16 [] (0 ∷ 0 ∷ 0 ∷ []) (omega arith) (omega arith)
