-- ===== src/Examples/Nocopy.antt =====
-- Values that are parts of the decoder's buffer.
use binary.Prelude.{
  ℕ, ◌≡◌, refl, arith, length, ◌^◌, ◌<◌, ◌-◌, replicate, length-replicate, List, [], ◌∷◌, ◌++◌,
}
use binary.Base.{ok, err, eof, map_too_large}
use binary.Encoder.{buffer, pipe, new_encoder, write}
use binary.Decoder.{Decoder, memory}
use binary.Decoder.Safety.{Moves}
use binary.Decoder.Laws.{in_memory, streaming, holding}
use binary.Codec.Bytes
use binary.Codec.Key.{same_key}
use binary.Memory.{Layout, little_layout}
use binary.Nocopy
use binary.Nocopy.{encode_integers, decode_integers, decode_string, decode_bools}
use binary.Nocopy.Laws.{wire_integers, decode_integers-encode_integers}
use binary.Nocopy.Copies.{decode_bytes-copied}
use binary.Prelude.{some}
use binary.Reader
use binary.Reader.{SliceReader}
use binary.Nocopy.Views.{
  View, reader_view, set_slice, decode_view, elements, put_byte, store, append_byte,
}
use binary.Nocopy.Views.Laws.{decode_view-apart}
use binary.Nocopy.Views.Values.{seen, decode_view-eq}
use binary.Nocopy.Safety.{nocopy-Moves}
use binary.Nocopy.Maps.{
  encode_byte_map, decode_byte_map, encode_hash_map, decode_hash_map, decode_dictionary,
}
use binary.Nocopy.Maps.Laws.{wire_byte_map, FitsSlices, decode_byte_map-encode_byte_map}
use binary.Nocopy.Maps.Hashes.{wire_hash_map, FitsHashes, decode_hash_map-encode_hash_map}
use binary.Nocopy.Maps.Limits.{encode_hash_map-large}

abbrev halves : Layout
halves = little_layout 2 (omega arith)

decode_integers-encode_integers_example :
    (encode_integers halves (3 ∷ 258 ∷ []) (new_encoder (buffer []))
      ≡ (ok tt, write (wire_integers halves (3 ∷ 258 ∷ [])) (new_encoder (buffer []))))
    × (decode_integers halves
          (holding in_memory [] (wire_integers halves (3 ∷ 258 ∷ []) ++ (7 ∷ [])))
        ≡ (
          ok (3 ∷ 258 ∷ []),
          holding in_memory ([] ++ wire_integers halves (3 ∷ 258 ∷ [])) (7 ∷ []),
        ))
decode_integers-encode_integers_example =
    decode_integers-encode_integers halves (3 ∷ 258 ∷ []) (new_encoder (buffer [])) in_memory []
      (7 ∷ []) (omega arith, (omega arith, tt)) (omega arith)

-- A count of 200 bytes, of which one is there.
abbrev short : Decoder
short = memory (record { buffer = 200 ∷ 1 ∷ 5 ∷ []; offset = 0 })

decode_bytes-copied_example :
    (Nocopy.decode_bytes short ≡ Bytes.decode_bytes short)
    × (Nocopy.encode_bytes (5 ∷ []) (new_encoder (pipe 1 []))
        ≡ Bytes.encode_bytes (5 ∷ []) (new_encoder (pipe 1 [])))
decode_bytes-copied_example =
    decode_bytes-copied short (5 ∷ []) (new_encoder (pipe 1 [])) (omega arith, omega arith)

nocopy-Moves_example :
    Moves short (decode_integers halves short)
    × Moves short (Nocopy.decode_bytes short)
    × Moves short (decode_string short)
    × Moves short (decode_bools short)
    × Moves short (decode_byte_map short)
    × Moves short (decode_hash_map short)
    × Moves short (decode_dictionary short)
nocopy-Moves_example = nocopy-Moves halves short (omega arith)

abbrev names : List (List ℕ × List ℕ)
names = (97 ∷ [], 1 ∷ 2 ∷ []) ∷ (98 ∷ [], []) ∷ []

names-FitsSlices : FitsSlices names
unfolding same_key
names-FitsSlices = (
  omega arith,
  ((omega arith, omega arith), ((omega arith, omega arith), tt)),
  ((refl, tt), (tt, tt)),
)

decode_byte_map-encode_byte_map_example :
    (encode_byte_map names (new_encoder (pipe 2 []))
      ≡ (ok tt, write (wire_byte_map names) (new_encoder (pipe 2 []))))
    × (decode_byte_map (holding in_memory [] (wire_byte_map names ++ (7 ∷ [])))
        ≡ (ok names, holding in_memory ([] ++ wire_byte_map names) (7 ∷ [])))
decode_byte_map-encode_byte_map_example =
    decode_byte_map-encode_byte_map names (new_encoder (pipe 2 [])) in_memory [] (7 ∷ [])
      names-FitsSlices

abbrev hashes : List (ℕ × List ℕ)
hashes = (300, 1 ∷ 2 ∷ []) ∷ (5, []) ∷ []

hashes-FitsHashes : FitsHashes hashes
unfolding same_key
hashes-FitsHashes = (
  omega arith,
  ((omega arith, omega arith), ((omega arith, omega arith), tt)),
  ((refl, tt), (tt, tt)),
)

decode_hash_map-encode_hash_map_example :
    (encode_hash_map hashes (new_encoder (buffer []))
      ≡ (ok tt, write (wire_hash_map hashes) (new_encoder (buffer []))))
    × (decode_hash_map (holding (streaming eof) [] (wire_hash_map hashes ++ (7 ∷ [])))
        ≡ (ok hashes, holding (streaming eof) ([] ++ wire_hash_map hashes) (7 ∷ [])))
decode_hash_map-encode_hash_map_example =
    decode_hash_map-encode_hash_map hashes (new_encoder (buffer [])) (streaming eof) [] (7 ∷ [])
      hashes-FitsHashes

sevens-large : (n : ℕ) → 2 ^ 32 - 1 < n → 2 ^ 32 - 1 < length {A = ℕ} (replicate n 7)
sevens-large n h = rw (length-replicate {A = ℕ} n 7) h

unfoldable vast : List ℕ
vast = replicate (2 ^ 32) 7

vast-large : 2 ^ 32 - 1 < length vast
unfolding vast
vast-large = sevens-large (2 ^ 32) (omega arith)

-- The second of two values is too large.
encode_hash_map-large_example :
    encode_hash_map (((5, 1 ∷ []) ∷ []) ++ ((6, vast) ∷ [])) (new_encoder (buffer []))
    ≡ (err map_too_large, new_encoder (buffer []))
encode_hash_map-large_example =
    encode_hash_map-large ((5, 1 ∷ []) ∷ []) [] 6 vast (new_encoder (buffer [])) vast-large

abbrev two_slices : List ℕ
two_slices = 2 ∷ 7 ∷ 8 ∷ 1 ∷ 9 ∷ []

abbrev from_place : ℕ → SliceReader
from_place i = record { buffer = two_slices; offset = i }

abbrev first_view : View
first_view = record { start = 1; size = 2; capacity = 2 }

abbrev second_view : View
second_view = record { start = 4; size = 1; capacity = 1 }

first_read : decode_view (from_place 0) ≡ (ok (some first_view), from_place 3)
unfolding decode_view reader_view set_slice Reader.read_uvarint Reader.uvarint_loop
first_read = refl

second_read : decode_view (from_place 3) ≡ (ok (some second_view), from_place 5)
unfolding decode_view reader_view set_slice Reader.read_uvarint Reader.uvarint_loop
second_read = refl

decode_view-apart_example :
    (elements (store first_view 1 5 two_slices) (some first_view)
      ≡ put_byte 1 5 (elements two_slices (some first_view)))
    × (elements (store first_view 1 5 two_slices) (some second_view)
        ≡ elements two_slices (some second_view))
    × (elements (store second_view 1 5 two_slices) (some first_view)
        ≡ elements two_slices (some first_view))
    × (append_byte first_view 5 two_slices ≡ two_slices)
decode_view-apart_example =
    decode_view-apart (from_place 0) (from_place 3) (from_place 5) first_view second_view 1 5
      (omega arith) first_read second_read

decode_view-eq_example :
    Nocopy.decode_bytes (memory (from_place 0)) ≡ seen (decode_view (from_place 0))
decode_view-eq_example = decode_view-eq (from_place 0)
