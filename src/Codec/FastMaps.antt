-- ===== src/Codec/FastMaps.antt =====
-- codecs.go: the codecs for common maps against the codec that fits every map.
use binary.Prelude.{ℕ, ◌≡◌, sym, ◌∙◌, All, List}
use binary.Encoder.{Encoder}
use binary.Varint.{uvarint_bytes}
use binary.Codec.{
  Codec, Val, primitive, byte_slice, string, uint, w64, string_key, uint_key, i64, map_of,
  string_map, uint64_map,
}
use binary.Codec.{Plain, PlainVal, plain_string, plain_bytes, plain_uint64}
use binary.Codec.Loops.{All-of}
use binary.Codec.Delivery.{finish, Delivers-of_write}
use binary.Codec.Primitive.{encode_primitive-Encodes, wire_kind}
use binary.Codec.Bytes.{encode_bytes-Encodes, wire_bytes}
use binary.Codec.Key.Laws.{FitsKey}
use binary.Codec.Map.Laws.{encode_map-Delivers}
use binary.Codec.Map.Fast.{plain_value_bytes}
use binary.Codec.Map.Fast.Laws.{encode_string_map-Delivers, encode_uint64_map-Delivers}
use binary.Codec.Tree.{encode}

-- The codec of a value in `stringMapCodec`, where the type has a name of its own.
abbrev pub general : Plain → Codec
general plain_string = primitive string
general plain_bytes = byte_slice
general plain_uint64 = primitive (uint w64)

-- The same entries, with the type of the values spelt the other way.
abbrev pub entries : (p : Plain) → List (List ℕ × PlainVal p) → Val (map_of string_key (general p))
entries plain_string m = m
entries plain_bytes m = m
entries plain_uint64 m = m

-- On a map whose keys are of a length that is allowed, the codec for maps of strings and the one for
-- all maps leave every encoder in the same state with the same error, entry for entry: a map whose type
-- has a name of its own has the wire format of the one that has none.
pub encode_string_map-general :
    (p : Plain) (m : List (List ℕ × PlainVal p)) (e : Encoder)
    → All (λ x. FitsKey string_key x.0) m
    → finish (encode (string_map p) m) e
      ≡ finish (encode (map_of string_key (general p)) (entries p m)) e
unfolding encode plain_value_bytes wire_kind wire_bytes
encode_string_map-general plain_string m e h =
    encode_string_map-Delivers plain_string m h e
    ∙ sym (
        encode_map-Delivers string_key (encode (primitive string)) (plain_value_bytes plain_string)
          m h (All-of _ m (λ x. Delivers-of_write _ _ (encode_primitive-Encodes string x.1))) e)
encode_string_map-general plain_bytes m e h =
    encode_string_map-Delivers plain_bytes m h e
    ∙ sym (
        encode_map-Delivers string_key (encode byte_slice) (plain_value_bytes plain_bytes) m h
          (All-of _ m (λ x. Delivers-of_write _ _ (encode_bytes-Encodes x.1))) e)
encode_string_map-general plain_uint64 m e h =
    encode_string_map-Delivers plain_uint64 m h e
    ∙ sym (
        encode_map-Delivers string_key (encode (primitive (uint w64)))
          (plain_value_bytes plain_uint64) m h
          (All-of _ m (λ x. Delivers-of_write _ _ (encode_primitive-Encodes (uint w64) x.1))) e)

-- On a map of uint64 to uint64, the codec for it and the one for all maps leave every encoder in the same
-- state with the same error.
encode_uint64_map-general :
    (m : List (ℕ × ℕ)) (e : Encoder)
    → All (λ x. FitsKey (uint_key i64) x.0) m
    → finish (encode uint64_map m) e
      ≡ finish (encode (map_of (uint_key i64) (primitive (uint w64))) m) e
unfolding encode wire_kind
encode_uint64_map-general m e h =
    encode_uint64_map-Delivers m h e
    ∙ sym (
        encode_map-Delivers (uint_key i64) (encode (primitive (uint w64))) uvarint_bytes m h
          (All-of _ m (λ x. Delivers-of_write _ _ (encode_primitive-Encodes (uint w64) x.1))) e)
