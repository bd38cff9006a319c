-- ===== src/Nocopy/Maps/Hashes.antt =====
-- nocopy/types.go: maps of hashes to byte slices, and dictionaries of strings.
use binary.Prelude.{
  ℕ, ◌-◌, ◌^◌, ◌≤◌, ◌<◌, ◌≡◌, refl, arith, length, All, List, [], ◌∷◌, ◌++◌, append_assoc,
  length-append, le→ltb_false,
}
use binary.Base.{ok, ◌>>◌, wire_each}
use binary.Encoder.{Encoder, write, write_uint32, little_endian}
use binary.Encoder.Laws.{write-write, write_string_lem, write_uint_lem}
use binary.Decoder.{read_slice, read_uint64}
use binary.Decoder.Laws.{Origin, holding, read_uint-holding, length-little_endian}
use binary.Decoder.Checks.{decode_length_fits}
use binary.Codec.{string_key, uint_key, i64}
use binary.Codec.Loops.{emit, Encodes, Decodes, encode_each, encode_each-Encodes, All-of, All-map}
use binary.Codec.Map.Laws.{IsMap}
use binary.Nocopy.Maps.{
  prefixed, check_values, hash_entry_bytes, encode_hash_entry, write_hash_map, encode_hash_map,
  read_hash_value, decode_hash_map, encode_pair, encode_dictionary, decode_dictionary,
  byte_entry_bytes,
}
use binary.Nocopy.Maps.Entries.{map_body-holding}
use binary.Nocopy.Maps.Laws.{
  sized_body-holding, read_slice-prefixed, FitsSlices, wire_byte_map, length-byte_entry,
}

sized_value : List ℕ → List ℕ
sized_value v = little_endian 4 (length v) ++ v

read_hash_value-sized : (v : List ℕ) → length v ≤ 2 ^ 32 - 1 → Decodes read_hash_value sized_value v
unfolding read_hash_value sized_value
read_hash_value-sized v h k front rest = rw (
  append_assoc,
  (read_uint-holding k (length v) front (v ++ rest)).1 (omega (arith, h)),
  sized_body-holding v (omega (arith, h)) k (front ++ little_endian 4 (length v)) rest,
  append_assoc,
)

-- A map whose number of keys and whose values' lengths fit 32 bits, with hashes of 64 bits of which no two
-- are the same.
abbrev pub FitsHashes : List (ℕ × List ℕ) → Type 0
FitsHashes m =
    (length m ≤ 2 ^ 32 - 1)
    × All (λ e. (e.0 < 2 ^ 64) × (length e.1 ≤ 2 ^ 32 - 1)) m
    × IsMap (uint_key i64) m

pub wire_hash_map : List (ℕ × List ℕ) → List ℕ
wire_hash_map m = little_endian 4 (length m) ++ wire_each hash_entry_bytes m

encode_hash_entry-Encodes : (e : ℕ × List ℕ) → Encodes encode_hash_entry hash_entry_bytes e
unfolding encode_hash_entry hash_entry_bytes
encode_hash_entry-Encodes (q, v) e =
    rw ((write_uint_lem q e).2, (write_uint_lem (length v) _).1, write-write, write-write) refl

check_values-ok :
    (m : List (ℕ × List ℕ)) (e : Encoder)
    → All (λ e. (e.0 < 2 ^ 64) × (length e.1 ≤ 2 ^ 32 - 1)) m
    → check_values m e ≡ (ok tt, e)
unfolding check_values
check_values-ok [] e h = refl
check_values-ok ((q, v) ∷ m) e h =
    rw (le→ltb_false (2 ^ 32 - 1) (length v) h.0.1, check_values-ok m e h.1)

slow_hash_map :
    (m : List (ℕ × List ℕ)) (e : Encoder)
    → (do emit (write_uint32 (length m)); encode_each encode_hash_entry m) e
      ≡ (ok tt, write (wire_hash_map m) e)
unfolding wire_hash_map
slow_hash_map m e = rw (
  (write_uint_lem (length m) e).1,
  encode_each-Encodes encode_hash_entry hash_entry_bytes m (All-of _ m encode_hash_entry-Encodes),
  write-write,
)

write_hash_map-Encodes : (m : List (ℕ × List ℕ)) → Encodes write_hash_map wire_hash_map m
unfolding write_hash_map wire_hash_map
write_hash_map-Encodes m e = ground (arith, slow_hash_map m e)

length-hash_entry : (e : ℕ × List ℕ) → 12 ≤ length (hash_entry_bytes e)
unfolding hash_entry_bytes
length-hash_entry (q, v) =
    rw (length-append, length-append, length-little_endian, length-little_endian) (omega arith)

-- A map of hashes to byte slices within the limits: EncodeTo writes the same on every encoder, with the one
-- write of a buffer and without, and DecodeTo of that, in memory or from a stream, gives the same entries
-- and stops right behind them.
pub decode_hash_map-encode_hash_map :
    (m : List (ℕ × List ℕ)) (e : Encoder) (k : Origin) (front rest : List ℕ)
    → FitsHashes m
    → (encode_hash_map m e ≡ (ok tt, write (wire_hash_map m) e))
      × (decode_hash_map (holding k front (wire_hash_map m ++ rest))
          ≡ (ok m, holding k (front ++ wire_hash_map m) rest))
unfolding encode_hash_map decode_hash_map wire_hash_map hash_entry_bytes sized_value
decode_hash_map-encode_hash_map m e k front rest (size, fits, once) =
    let entries = wire_each hash_entry_bytes m in
    let front' = front ++ little_endian 4 (length m) in
    (
      rw (le→ltb_false (2 ^ 32 - 1) (length m) size, check_values-ok m e fits)
          (write_hash_map-Encodes m e),
      rw (
        append_assoc,
        (read_uint-holding k (length m) front (entries ++ rest)).1 (omega (arith, size)),
        decode_length_fits (length m) (holding k front' (entries ++ rest)) (omega (arith, size)),
        map_body-holding (uint_key i64) read_uint64 (little_endian 8) read_hash_value sized_value
            hash_entry_bytes (λ q v. refl) 12 m (omega arith)
            (All-map _ _ m
              (λ x h.
                ((λ o f r. (read_uint-holding o x.0 f r).2 h.0), read_hash_value-sized x.1 h.1))
              fits)
            once length-hash_entry k front' rest,
        append_assoc,
      ),
    )

encode_pair-Encodes : (e : List ℕ × List ℕ) → Encodes encode_pair byte_entry_bytes e
unfolding encode_pair byte_entry_bytes prefixed
encode_pair-Encodes (q, v) e =
    rw (write_string_lem q e, write_string_lem v _, write-write, append_assoc) refl

-- A dictionary has the wire format of a map of the same keys to byte slices, and comes back the same way.
decode_dictionary-encode_dictionary :
    (m : List (List ℕ × List ℕ)) (e : Encoder) (k : Origin) (front rest : List ℕ)
    → FitsSlices m
    → (encode_dictionary m e ≡ (ok tt, write (wire_byte_map m) e))
      × (decode_dictionary (holding k front (wire_byte_map m ++ rest))
          ≡ (ok m, holding k (front ++ wire_byte_map m) rest))
unfolding encode_dictionary decode_dictionary wire_byte_map byte_entry_bytes
decode_dictionary-encode_dictionary m e k front rest (size, fits, once) =
    let entries = wire_each byte_entry_bytes m in
    (
      rw (
        le→ltb_false (2 ^ 16 - 1) (length m) size,
        (write_uint_lem (length m) e).0,
        encode_each-Encodes encode_pair byte_entry_bytes m (All-of _ m encode_pair-Encodes),
        write-write,
      ),
      rw (
        append_assoc,
        (read_uint-holding k (length m) front (entries ++ rest)).0 (omega (arith, size)),
        map_body-holding string_key read_slice prefixed read_slice prefixed byte_entry_bytes
            (λ q v. refl) 2 m (omega arith)
            (All-map _ _ m (λ x h. (read_slice-prefixed x.0 h.0, read_slice-prefixed x.1 h.1)) fits)
            once length-byte_entry k (front ++ little_endian 2 (length m)) rest,
        append_assoc,
      ),
    )
