-- ===== src/Nocopy/Maps/Limits.antt =====
-- nocopy/types.go: maps that do not fit their wire formats, and counts that the bytes have no room for.
use binary.Prelude.{
  ℕ, ◌-◌, ◌/◌, ◌^◌, ◌<◌, ◌≡◌, length, List, [], ◌∷◌, ◌++◌, lt→ltb, ltb, Bool-cases, inl, inr,
}
use binary.Base.{err, eof, map_too_large}
use binary.Encoder.{Encoder, little_endian}
use binary.Decoder.Laws.{in_memory, holding, read_uint-holding}
use binary.Decoder.Checks.{available-holding}
use binary.Nocopy.Maps.{
  encode_byte_map, encode_hash_map, encode_dictionary, decode_byte_map, decode_dictionary,
  map_capacity, too_few, check_values,
}

check_values-large :
    (m m' : List (ℕ × List ℕ)) (q : ℕ) (v : List ℕ) (e : Encoder)
    → 2 ^ 32 - 1 < length v
    → check_values (m ++ ((q, v) ∷ m')) e ≡ (err map_too_large, e)
unfolding check_values
check_values-large [] m' q v e h = rw (lt→ltb (2 ^ 32 - 1) (length v) h)
check_values-large ((p, w) ∷ m) m' q v e h = elim (Bool-cases (ltb (2 ^ 32 - 1) (length w))) [
  | inl large ↦ rw large
  | inr small ↦ rw small (check_values-large m m' q v e h)
]

-- A map of numbers to byte slices with a value of 2^32 bytes or more, at any place among its entries, is
-- refused: EncodeTo returns an error and writes nothing, neither the count nor the entries before it,
-- whatever the encoder writes to.
pub encode_hash_map-large :
    (m m' : List (ℕ × List ℕ)) (q : ℕ) (v : List ℕ) (e : Encoder)
    → 2 ^ 32 - 1 < length v
    → encode_hash_map (m ++ ((q, v) ∷ m')) e ≡ (err map_too_large, e)
unfolding encode_hash_map
encode_hash_map-large m m' q v e h =
    elim (Bool-cases (ltb (2 ^ 32 - 1) (length (m ++ ((q, v) ∷ m'))))) [
      | inl many ↦ rw many
      | inr few ↦ rw (few, check_values-large m m' q v e h)
    ]

-- A map of more than 65535 strings to byte slices or to strings is refused: EncodeTo returns an error and
-- writes nothing, not even the count.
encode-too_large :
    (m : List (List ℕ × List ℕ)) (e : Encoder)
    → 2 ^ 16 - 1 < length m
    → (encode_byte_map m e ≡ (err map_too_large, e))
      × (encode_dictionary m e ≡ (err map_too_large, e))
unfolding encode_byte_map encode_dictionary
encode-too_large m e many =
    (rw (lt→ltb (2 ^ 16 - 1) (length m) many), rw (lt→ltb (2 ^ 16 - 1) (length m) many))

-- A count in memory for which there are fewer than two bytes an entry is refused with an error, before a map
-- is made or an entry is read: the decoder stops behind the count.
decode-too_few :
    (n : ℕ) (front rest : List ℕ)
    → n < 2 ^ 16
    → length rest / 2 < n
    → (decode_byte_map (holding in_memory front (little_endian 2 n ++ rest))
        ≡ (err eof, holding in_memory (front ++ little_endian 2 n) rest))
      × (decode_dictionary (holding in_memory front (little_endian 2 n ++ rest))
          ≡ (err eof, holding in_memory (front ++ little_endian 2 n) rest))
unfolding decode_byte_map decode_dictionary map_capacity too_few
decode-too_few n front rest h few =
    let count = (read_uint-holding in_memory n front rest).0 h in
    let left = (available-holding eof (front ++ little_endian 2 n) rest).0 in
    let short = lt→ltb (length rest / 2) n few in (rw (count, left, short), rw (count, left, short))
