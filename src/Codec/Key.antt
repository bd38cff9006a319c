-- ===== src/Codec/Key.antt =====
-- `reflectMapCodec.writeKey` and `readKey`: the keys of maps. An integer of 16, 32 or 64 bits has that
-- many; `int`, `uint` and the integers of 8 bits are written as values of their kind are. Keys of
-- other types (floats, structs, arrays, pointers) are not among them.
pub mod Laws
use binary.Codec.{
  KeyKind, KeyVal, string_key, bool_key, int_key, uint_key, native, i8, i16, i32, i64,
}
use binary.Prelude.{
  ℕ, zero, suc, ◌==◌, ◌&&◌, ◌^◌, ◌-◌, ◌%◌, ltb, length, if◌then◌else◌, Bool, true, false,
}
use binary.Prelude.{List, [], ◌∷◌, ◌++◌}
use binary.Prelude.Int.{ℤ, pos, negsuc, word, signed}
use binary.Base.{map_key_too_long, M, ◌>>=◌, ◌>>◌, pure, next, check}
use binary.Varint.{uvarint_bytes, varint_bytes}
use binary.Encoder.{
  Encoder, write, write_uint16, write_uint32, write_uint64, little_endian, bool_byte,
}
use binary.Decoder.{Decoder, read_uint16, read_uint32, read_uint64, slice}
use binary.Codec.{Width, w8, w16, w32, w64, KindVal, string, bool, int, uint}
use binary.Codec.Loops.{emit}
use binary.Codec.Primitive.{encode_primitive, decode_primitive}
use binary.Decoder.Safety.{
  Safe, pure-Safe, fail-Safe, if-Safe, bind-Safe, then-Safe, check-Safe, by_source-Safe,
}
use binary.Codec.Primitive.{decode_primitive-Safe}
use binary.Decoder.Safety.Calls.{read_uint-Safe, slice-Safe}

-- `checkMapKey`.
abbrev pub max_map_key_length : ℕ
max_map_key_length = 2 ^ 16 - 1

unfoldable pub check_map_key {ℓ} : {S : Type ℓ} → List ℕ → M S (Unit {0})
check_map_key key = check (ltb max_map_key_length (length key)) map_key_too_long

write_string_key : List ℕ → M Encoder (Unit {0})
unfolding check_map_key
write_string_key key = do check_map_key key; emit (write_uint16 (length key)); emit (write key)

pub write_key : (k : KeyKind) → KeyVal k → M Encoder (Unit {0})
unfolding write_string_key
write_key string_key key = write_string_key key
write_key bool_key key = encode_primitive bool key
write_key (int_key native) key = encode_primitive (int w64) key
write_key (int_key i8) key = encode_primitive (int w8) key
write_key (int_key i16) key = emit (write_uint16 (word 64 key % 2 ^ 16))
write_key (int_key i32) key = emit (write_uint32 (word 64 key % 2 ^ 32))
write_key (int_key i64) key = emit (write_uint64 (word 64 key))
write_key (uint_key native) key = encode_primitive (uint w64) key
write_key (uint_key i8) key = encode_primitive (uint w8) key
write_key (uint_key i16) key = emit (write_uint16 (key % 2 ^ 16))
write_key (uint_key i32) key = emit (write_uint32 (key % 2 ^ 32))
write_key (uint_key i64) key = emit (write_uint64 key)

read_string_key : M Decoder (List ℕ)
read_string_key = do l ← read_uint16; slice (pos l)

pub read_key : (k : KeyKind) → M Decoder (KeyVal k)
unfolding read_string_key
read_key string_key = read_string_key
read_key bool_key = decode_primitive bool
read_key (int_key native) = decode_primitive (int w64)
read_key (int_key i8) = decode_primitive (int w8)
read_key (int_key i16) = do v ← read_uint16; pure (signed 16 v)
read_key (int_key i32) = do v ← read_uint32; pure (signed 32 v)
read_key (int_key i64) = do v ← read_uint64; pure (signed 64 v)
read_key (uint_key native) = decode_primitive (uint w64)
read_key (uint_key i8) = decode_primitive (uint w8)
read_key (uint_key i16) = read_uint16
read_key (uint_key i32) = read_uint32
read_key (uint_key i64) = read_uint64

-- The equality of keys.
unfoldable pub same_bytes : List ℕ → List ℕ → Bool
same_bytes [] [] = true
same_bytes [] (y ∷ ys) = false
same_bytes (x ∷ xs) [] = false
same_bytes (x ∷ xs) (y ∷ ys) = x == y && same_bytes xs ys

same_bool : Bool → Bool → Bool
same_bool true b = b
same_bool false true = false
same_bool false false = true

unfoldable pub same_int : ℤ → ℤ → Bool
same_int (pos a) (pos b) = a == b
same_int (negsuc a) (negsuc b) = a == b
same_int (pos a) (negsuc b) = false
same_int (negsuc a) (pos b) = false

unfoldable pub same_key : (k : KeyKind) → KeyVal k → KeyVal k → Bool
unfolding same_bytes same_bool same_int
same_key string_key a b = same_bytes a b
same_key bool_key a b = same_bool a b
same_key (int_key k) a b = same_int a b
same_key (uint_key k) a b = a == b

read_string_key-Safe : Safe read_string_key
unfolding read_string_key
read_string_key-Safe = bind-Safe read_uint-Safe.0 (λ l. slice-Safe (pos l))

pub read_key-Safe : (k : KeyKind) → Safe (read_key k)
unfolding read_key
read_key-Safe string_key = read_string_key-Safe
read_key-Safe bool_key = decode_primitive-Safe bool
read_key-Safe (int_key native) = decode_primitive-Safe (int w64)
read_key-Safe (int_key i8) = decode_primitive-Safe (int w8)
read_key-Safe (int_key i16) = bind-Safe read_uint-Safe.0 (λ v. pure-Safe _)
read_key-Safe (int_key i32) = bind-Safe read_uint-Safe.1 (λ v. pure-Safe _)
read_key-Safe (int_key i64) = bind-Safe read_uint-Safe.2 (λ v. pure-Safe _)
read_key-Safe (uint_key native) = decode_primitive-Safe (uint w64)
read_key-Safe (uint_key i8) = decode_primitive-Safe (uint w8)
read_key-Safe (uint_key i16) = read_uint-Safe.0
read_key-Safe (uint_key i32) = read_uint-Safe.1
read_key-Safe (uint_key i64) = read_uint-Safe.2
