-- ===== src/Nocopy/Maps/Laws.antt =====
-- nocopy/types.go: the three maps against their wire formats.
use binary.Prelude.{
  ℕ, ◌-◌, ◌/◌, ◌^◌, ◌≤◌, ◌≡◌, refl, arith, length, All, List, [], ◌∷◌, ◌++◌, append_assoc,
  append-nil, length-append, le→ltb_false, lt→ltb,
}
use binary.Base.{ok, ◌>>◌, wire_each}
use binary.Varint.{uvarint_bytes}
use binary.Varint.Shape.{length-uvarint_bytes}
use binary.Stream.{max_int}
use binary.Encoder.{Encoder, write, write_uint16, little_endian}
use binary.Encoder.Laws.{write-write, write_uvarint_lem, write_string_lem, write_uint_lem}
use binary.Decoder.{read_slice}
use binary.Decoder.Laws.{
  Origin, holding, read_slice-holding, read_uvarint-holding, slice-holding, read_uint-holding,
}
use binary.Decoder.Checks.{decode_length_fits}
use binary.Codec.{string_key}
use binary.Codec.Loops.{emit, Encodes, Decodes, encode_each, encode_each-Encodes, All-of, All-map}
use binary.Codec.Map.Laws.{IsMap}
use binary.Nocopy.Maps.{
  prefixed, write_prefixed, byte_entry_bytes, encode_byte_entry, byte_map_header, write_byte_map,
  encode_byte_map, sized_body, read_bytes, decode_byte_map,
}
use binary.Nocopy.Maps.Entries.{map_body-holding}

-- `ReadSlice` of a key or a value.
pub read_slice-prefixed : (b : List ℕ) → length b ≤ max_int / 2 → Decodes read_slice prefixed b
unfolding prefixed
read_slice-prefixed b h k front rest =
    rw (append_assoc, read_slice-holding k b front rest h, append_assoc)

pub sized_body-holding :
    (b : List ℕ)
    → length b ≤ max_int / 2
    → (k : Origin) (front rest : List ℕ)
    → sized_body (length b) (holding k front (b ++ rest)) ≡ (ok b, holding k (front ++ b) rest)
unfolding sized_body
sized_body-holding [] h k front rest = rw append-nil
sized_body-holding (x ∷ b) h k front rest =
    rw
      (
        lt→ltb 0 (length (x ∷ b)) (omega arith),
        decode_length_fits (length (x ∷ b)) (holding k front (x ∷ (b ++ rest))) (omega (arith, h)),
      )
      (slice-holding k (x ∷ b) front rest h)

read_bytes-prefixed : (b : List ℕ) → length b ≤ max_int / 2 → Decodes read_bytes prefixed b
unfolding read_bytes prefixed
read_bytes-prefixed b h k front rest = rw (
  append_assoc,
  read_uvarint-holding k (length b) front (b ++ rest) (omega (arith, h)),
  sized_body-holding b h k (front ++ uvarint_bytes (length b)) rest,
  append_assoc,
)

-- A map with at most 65535 keys, of which no two are the same, and with keys and values that a slice can hold.
abbrev pub FitsSlices : List (List ℕ × List ℕ) → Type 0
FitsSlices m =
    (length m ≤ 2 ^ 16 - 1)
    × All (λ e. (length e.0 ≤ max_int / 2) × (length e.1 ≤ max_int / 2)) m
    × IsMap string_key m

unfoldable pub wire_byte_map : List (List ℕ × List ℕ) → List ℕ
wire_byte_map m = little_endian 2 (length m) ++ wire_each byte_entry_bytes m

encode_byte_entry-Encodes : (e : List ℕ × List ℕ) → Encodes encode_byte_entry byte_entry_bytes e
unfolding encode_byte_entry write_prefixed byte_entry_bytes prefixed
encode_byte_entry-Encodes (q, v) e =
    rw (write_string_lem q e, write_uvarint_lem, write-write, write-write, append_assoc) refl

slow_byte_map :
    (m : List (List ℕ × List ℕ)) (e : Encoder)
    → (do emit (write_uint16 (length m)); encode_each encode_byte_entry m) e
      ≡ (ok tt, write (wire_byte_map m) e)
unfolding wire_byte_map
slow_byte_map m e = rw (
  (write_uint_lem (length m) e).0,
  encode_each-Encodes encode_byte_entry byte_entry_bytes m (All-of _ m encode_byte_entry-Encodes),
  write-write,
)

write_byte_map-Encodes : (m : List (List ℕ × List ℕ)) → Encodes write_byte_map wire_byte_map m
unfolding write_byte_map wire_byte_map byte_map_header little_endian
write_byte_map-Encodes m e = ground (arith, slow_byte_map m e)

pub length-byte_entry : (e : List ℕ × List ℕ) → 2 ≤ length (byte_entry_bytes e)
unfolding byte_entry_bytes prefixed
length-byte_entry (q, v) =
    rw (length-append, length-append, length-append)
      (omega (arith, length-uvarint_bytes (length q), length-uvarint_bytes (length v)))

-- A map of strings to byte slices with at most 65535 keys: EncodeTo writes the same on every encoder, with
-- the one write of a buffer and without, and DecodeTo of that, in memory or from a stream, gives the same
-- entries and stops right behind them.
pub decode_byte_map-encode_byte_map :
    (m : List (List ℕ × List ℕ)) (e : Encoder) (k : Origin) (front rest : List ℕ)
    → FitsSlices m
    → (encode_byte_map m e ≡ (ok tt, write (wire_byte_map m) e))
      × (decode_byte_map (holding k front (wire_byte_map m ++ rest))
          ≡ (ok m, holding k (front ++ wire_byte_map m) rest))
unfolding encode_byte_map decode_byte_map wire_byte_map byte_entry_bytes
decode_byte_map-encode_byte_map m e k front rest (size, fits, once) =
    let entries = wire_each byte_entry_bytes m in
    (
      rw (le→ltb_false (2 ^ 16 - 1) (length m) size) (write_byte_map-Encodes m e),
      rw (
        append_assoc,
        (read_uint-holding k (length m) front (entries ++ rest)).0 (omega (arith, size)),
        map_body-holding string_key read_slice prefixed read_bytes prefixed byte_entry_bytes
            (λ q v. refl) 2 m (omega arith)
            (All-map _ _ m (λ x h. (read_slice-prefixed x.0 h.0, read_bytes-prefixed x.1 h.1)) fits)
            once length-byte_entry k (front ++ little_endian 2 (length m)) rest,
        append_assoc,
      ),
    )
