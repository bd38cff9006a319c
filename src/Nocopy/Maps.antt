-- ===== src/Nocopy/Maps.antt =====
-- nocopy/types.go: maps of strings to strings, of strings to byte slices and of hashes to byte slices.
-- A Go map is its entries, in the order in which `range` comes by them, which Go leaves open.
pub mod Entries
pub mod Laws
pub mod Hashes
pub mod Limits
pub mod Safety
use binary.Prelude.{
  ℕ, ◌+◌, ◌*◌, ◌-◌, ◌/◌, ◌%◌, ◌^◌, ◌&&◌, ◌==◌, leb, ltb, if◌then◌else◌, length, List, [], ◌∷◌, ◌++◌,
  Bool, true, false, Option, none, some,
}
use binary.Prelude.Int.{pos}
use binary.Base.{eof, map_too_large, M, ◌>>=◌, ◌>>◌, pure, check, fail, next, wire_each}
use binary.Varint.{uvarint_bytes}
use binary.Encoder.{
  Encoder, write, write_uvarint, write_string, write_uint16, write_uint32, write_uint64,
  little_endian, is_buffer,
}
use binary.Decoder.{
  Decoder, read_uvarint, read_uint16, read_uint32, read_uint64, read_slice, decode_length, slice,
  available,
}
use binary.Codec.{string_key, uint_key, i64}
use binary.Codec.Key.{same_key}
use binary.Codec.Map.{decode_entries}
use binary.Codec.Loops.{emit, encode_each}

-- `mapCapacity`
too_few : ℕ → ℕ → Option ℕ → Bool
too_few n min none = false
too_few n min (some left) = ltb (left / min) n

pub map_capacity : ℕ → ℕ → M Decoder (Unit {0})
unfolding too_few
map_capacity n min d = check (too_few n min (available d)) eof d

abbrev max_uint16 : ℕ
max_uint16 = 2 ^ 16 - 1

abbrev max_uint32 : ℕ
max_uint32 = 2 ^ 32 - 1

-- A key, or a value that is a string, and a value that is a byte slice: its length and its bytes.
pub prefixed : List ℕ → List ℕ
prefixed b = uvarint_bytes (length b) ++ b

write_prefixed : List ℕ → M Encoder (Unit {0})
write_prefixed b = do emit (write_uvarint (length b)); emit (write b)

pub byte_entry_bytes : List ℕ × List ℕ → List ℕ
unfolding prefixed
byte_entry_bytes (key, v) = prefixed key ++ prefixed v

encode_byte_entry : List ℕ × List ℕ → M Encoder (Unit {0})
unfolding write_prefixed
encode_byte_entry (key, v) = do emit (write_string key); write_prefixed v

byte_map_header : ℕ → List ℕ
byte_map_header n = (n % 2 ^ 8) ∷ (n / 2 ^ 8 % 2 ^ 8) ∷ []

write_byte_map : List (List ℕ × List ℕ) → M Encoder (Unit {0})
unfolding byte_entry_bytes encode_byte_entry byte_map_header
write_byte_map m e =
    if leb 8 (length m) && is_buffer e.out
    then emit (write (byte_map_header (length m) ++ wire_each byte_entry_bytes m)) e
    else (do emit (write_uint16 (length m)); encode_each encode_byte_entry m) e

-- `byteMapCodec`; from 8 entries on a buffer gets all of them in one write.
pub encode_byte_map : List (List ℕ × List ℕ) → M Encoder (Unit {0})
unfolding write_byte_map
encode_byte_map m = if ltb max_uint16 (length m) then fail map_too_large else write_byte_map m

-- `if l > 0 { … }`, for a length that has been read.
pub sized_body : ℕ → M Decoder (List ℕ)
sized_body l = if ltb 0 l then (do n ← decode_length l; slice (pos n)) else pure []

read_bytes : M Decoder (List ℕ)
unfolding sized_body
read_bytes = do l ← read_uvarint; sized_body l

pub decode_byte_map : M Decoder (List (List ℕ × List ℕ))
unfolding read_bytes
decode_byte_map = do
  n ← read_uint16
  map_capacity n 2
  decode_entries (same_key string_key) read_slice read_bytes n []

-- `hashMapCodec`
check_values : List (ℕ × List ℕ) → M Encoder (Unit {0})
check_values [] = pure tt
check_values ((key, v) ∷ m) = do check (ltb max_uint32 (length v)) map_too_large; check_values m

pub hash_entry_bytes : ℕ × List ℕ → List ℕ
hash_entry_bytes (key, v) = little_endian 8 key ++ (little_endian 4 (length v) ++ v)

encode_hash_entry : ℕ × List ℕ → M Encoder (Unit {0})
encode_hash_entry (key, v) = do
  emit (write_uint64 key)
  emit (write_uint32 (length v))
  emit (write v)

write_hash_map : List (ℕ × List ℕ) → M Encoder (Unit {0})
unfolding hash_entry_bytes encode_hash_entry
write_hash_map m e =
    if leb 8 (length m) && is_buffer e.out
    then emit (write (little_endian 4 (length m) ++ wire_each hash_entry_bytes m)) e
    else (do emit (write_uint32 (length m)); encode_each encode_hash_entry m) e

pub encode_hash_map : List (ℕ × List ℕ) → M Encoder (Unit {0})
unfolding check_values write_hash_map
encode_hash_map m =
    if ltb max_uint32 (length m) then fail map_too_large else (do check_values m; write_hash_map m)

read_hash_value : M Decoder (List ℕ)
unfolding sized_body
read_hash_value = do l ← read_uint32; sized_body l

pub decode_hash_map : M Decoder (List (ℕ × List ℕ))
unfolding read_hash_value
decode_hash_map = do
  size ← read_uint32
  n ← decode_length size
  map_capacity n 12
  decode_entries (same_key (uint_key i64)) read_uint64 read_hash_value n []

-- `dictionaryCodec`
encode_pair : List ℕ × List ℕ → M Encoder (Unit {0})
encode_pair (key, v) = do emit (write_string key); emit (write_string v)

pub encode_dictionary : List (List ℕ × List ℕ) → M Encoder (Unit {0})
unfolding encode_pair
encode_dictionary m =
    if ltb max_uint16 (length m)
    then fail map_too_large
    else (do emit (write_uint16 (length m)); encode_each encode_pair m)

pub decode_dictionary : M Decoder (List (List ℕ × List ℕ))
decode_dictionary = do
  n ← read_uint16
  map_capacity n 2
  decode_entries (same_key string_key) read_slice read_slice n []
