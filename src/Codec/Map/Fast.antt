-- ===== src/Codec/Map/Fast.antt =====
-- `stringMapCodec` and `uint64MapCodec`, for maps of types that are common.
pub mod Laws
pub mod Errors
use binary.Codec.{
  string_key, uint_key, i64, Plain, PlainVal, plain_string, plain_bytes, plain_uint64,
}
use binary.Prelude.{ℕ, ◌+◌, ◌/◌, ◌%◌, ◌^◌, ◌&&◌, leb, length, if◌then◌else◌, Bool}
use binary.Prelude.{List, [], ◌∷◌, ◌++◌}
use binary.Base.{M, ◌>>=◌, ◌>>◌, pure, next, wire_each}
use binary.Varint.{uvarint_bytes}
use binary.Encoder.{Encoder, write, write_uvarint, write_string, little_endian, has_buffer}
use binary.Decoder.{Decoder, read_count, read_uvarint, read_slice, ensure_elements}
use binary.Codec.Loops.{emit}
use binary.Codec.Key.{same_key, read_key, check_map_key}
use binary.Codec.Map.{decode_entries, encode_map}
use binary.Decoder.Safety.{
  Safe, pure-Safe, fail-Safe, if-Safe, bind-Safe, then-Safe, check-Safe, by_source-Safe,
}
use binary.Codec.Key.{read_key-Safe}
use binary.Codec.Map.{decode_entries-Safe}
use binary.Decoder.Safety.Calls.{
  read_count-Safe, ensure_elements-Safe, read_slice-Safe, read_uvarint-Safe,
}

-- `appendStringMapValue`
unfoldable pub plain_value_bytes : (p : Plain) → PlainVal p → List ℕ
plain_value_bytes plain_string v = uvarint_bytes (length v) ++ v
plain_value_bytes plain_bytes v = uvarint_bytes (length v) ++ v
plain_value_bytes plain_uint64 v = uvarint_bytes v

write_plain_value : (p : Plain) → PlainVal p → M Encoder (Unit {0})
write_plain_value plain_string v = emit (write_string v)
write_plain_value plain_bytes v = do emit (write_uvarint (length v)); emit (write v)
write_plain_value plain_uint64 v = emit (write_uvarint v)

-- `readStringMapValue`
pub read_plain_value : (p : Plain) → M Decoder (PlainVal p)
read_plain_value plain_string = read_slice
read_plain_value plain_bytes = read_slice
read_plain_value plain_uint64 = read_uvarint

-- The keys are all checked before the first byte is written.
check_keys : {E : Type 0} → List (List ℕ × E) → M Encoder (Unit {0})
check_keys [] = pure tt
check_keys ((key, v) ∷ m) = do check_map_key key; check_keys m

-- `byte(len(key)), byte(len(key)>>8)`, the key and the value.
string_entry_bytes : (p : Plain) → List ℕ × PlainVal p → List ℕ
unfolding plain_value_bytes
string_entry_bytes p (key, v) =
    (length key % 2 ^ 8) ∷ (length key / 2 ^ 8 % 2 ^ 8) ∷ (key ++ plain_value_bytes p v)

-- From 8 entries on a buffer gets all of them in one write. The loop for other writers does for each
-- entry what `reflectMapCodec` does.
pub encode_string_map : (p : Plain) → List (List ℕ × PlainVal p) → M Encoder (Unit {0})
unfolding check_keys string_entry_bytes write_plain_value
encode_string_map p m e =
    if leb 8 (length m) && has_buffer e
    then (do
      check_keys m
      emit (write (uvarint_bytes (length m) ++ wire_each (string_entry_bytes p) m)))
        e
    else encode_map string_key (write_plain_value p) m e

pub decode_string_map : (p : Plain) → M Decoder (List (List ℕ × PlainVal p))
unfolding read_plain_value
decode_string_map p = do
  n ← read_count
  ensure_elements n 3
  decode_entries (same_key string_key) (read_key string_key) (read_plain_value p) n []

uint64_entry_bytes : ℕ × ℕ → List ℕ
uint64_entry_bytes (key, v) = little_endian 8 key ++ uvarint_bytes v

pub encode_uint64_map : List (ℕ × ℕ) → M Encoder (Unit {0})
unfolding uint64_entry_bytes
encode_uint64_map m e =
    if leb 8 (length m) && has_buffer e
    then emit (write (uvarint_bytes (length m) ++ wire_each uint64_entry_bytes m)) e
    else encode_map (uint_key i64) (λ v. emit (write_uvarint v)) m e

pub decode_uint64_map : M Decoder (List (ℕ × ℕ))
decode_uint64_map = do
  n ← read_count
  ensure_elements n 9
  decode_entries (same_key (uint_key i64)) (read_key (uint_key i64)) read_uvarint n []

read_plain_value-Safe : (p : Plain) → Safe (read_plain_value p)
unfolding read_plain_value
read_plain_value-Safe plain_string = read_slice-Safe
read_plain_value-Safe plain_bytes = read_slice-Safe
read_plain_value-Safe plain_uint64 = read_uvarint-Safe

pub decode_string_map-Safe : (p : Plain) → Safe (decode_string_map p)
unfolding decode_string_map
decode_string_map-Safe p = bind-Safe read_count-Safe λ n. then-Safe (ensure_elements-Safe n 3) (
    decode_entries-Safe (same_key string_key) n [] (read_key-Safe string_key)
      (read_plain_value-Safe p))

pub decode_uint64_map-Safe : Safe decode_uint64_map
unfolding decode_uint64_map
decode_uint64_map-Safe = bind-Safe read_count-Safe λ n. then-Safe (ensure_elements-Safe n 9) (
    decode_entries-Safe (same_key (uint_key i64)) n [] (read_key-Safe (uint_key i64))
      read_uvarint-Safe)
