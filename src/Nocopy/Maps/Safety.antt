-- ===== src/Nocopy/Maps/Safety.antt =====
-- nocopy/types.go: the maps on any input.
use binary.Prelude.{ℕ, ltb}
use binary.Prelude.Int.{pos}
use binary.Base.{eof}
use binary.Decoder.Safety.{Safe, pure-Safe, if-Safe, bind-Safe, then-Safe, check-Safe}
use binary.Decoder.{available}
use binary.Decoder.Safety.Calls.{
  read_uvarint-Safe, read_uint-Safe, read_slice-Safe, decode_length-Safe, slice-Safe,
}
use binary.Codec.{string_key, uint_key, i64}
use binary.Codec.Key.{same_key}
use binary.Codec.Map.{decode_entries-Safe}
use binary.Nocopy.Maps.{
  map_capacity, too_few, sized_body, read_bytes, read_hash_value, decode_byte_map, decode_hash_map,
  decode_dictionary,
}

map_capacity-Safe : (n min : ℕ) → Safe (map_capacity n min)
unfolding map_capacity
map_capacity-Safe n min = record {
  moves = λ d v. (check-Safe (too_few n min (available d)) eof).moves d v;
}

sized_body-Safe : (l : ℕ) → Safe (sized_body l)
unfolding sized_body
sized_body-Safe l =
    if-Safe (ltb 0 l) (bind-Safe (decode_length-Safe l) (λ n. slice-Safe (pos n))) (pure-Safe _)

read_bytes-Safe : Safe read_bytes
unfolding read_bytes
read_bytes-Safe = bind-Safe read_uvarint-Safe sized_body-Safe

read_hash_value-Safe : Safe read_hash_value
unfolding read_hash_value
read_hash_value-Safe = bind-Safe read_uint-Safe.1 sized_body-Safe

pub decode_byte_map-Safe : Safe decode_byte_map
unfolding decode_byte_map
decode_byte_map-Safe = bind-Safe read_uint-Safe.0 λ n.
    then-Safe (map_capacity-Safe n 2)
      (decode_entries-Safe (same_key string_key) n _ read_slice-Safe read_bytes-Safe)

pub decode_dictionary-Safe : Safe decode_dictionary
unfolding decode_dictionary
decode_dictionary-Safe = bind-Safe read_uint-Safe.0 λ n.
    then-Safe (map_capacity-Safe n 2)
      (decode_entries-Safe (same_key string_key) n _ read_slice-Safe read_slice-Safe)

pub decode_hash_map-Safe : Safe decode_hash_map
unfolding decode_hash_map
decode_hash_map-Safe = bind-Safe read_uint-Safe.1 λ size. bind-Safe (decode_length-Safe size) λ n.
    then-Safe (map_capacity-Safe n 12)
      (decode_entries-Safe (same_key (uint_key i64)) n _ read_uint-Safe.2 read_hash_value-Safe)
