-- ===== src/Codec/Key/Laws.antt =====
-- Keys of maps against their wire format, and what the equality of keys tells.
use binary.Codec.Key.{check_map_key}
use binary.Codec.Key.{write_string_key}
use binary.Prelude.{lt→ltb, ◌<◌}
use binary.Base.{err, map_key_too_long}
use binary.Encoder.{Encoder}
use binary.Codec.{
  KeyKind, KeyVal, string_key, bool_key, int_key, uint_key, native, i8, i16, i32, i64, width_of,
}
use binary.Prelude.{ℕ, ◌≤◌, ◌<◌, ◌%◌, ◌^◌, ◌≡◌, refl, arith, length, le→ltb_false}
use binary.Prelude.{List, [], ◌∷◌, ◌++◌, append_assoc, true, false, length-append}
use binary.Prelude.Int.{ℤ, pos, negsuc, word, signed, InRange}
use binary.Encoder.{little_endian}
use binary.Encoder.Laws.{write_uint_lem, write-write}
use binary.Decoder.Laws.{read_fixed-holding, read_uint_lem, slice-holding, length-little_endian}
use binary.Codec.{w8, w64, bool, int, uint, bits}
use binary.Codec.Loops.{Encodes, Decodes}
use binary.Codec.Primitive.{wire_kind}
use binary.Codec.Primitive.{
  encode_primitive-Encodes, decode_primitive-Decodes, to_signed_self, length-wire_kind,
}
use binary.Codec.Key.{write_key, read_key, same_key, same_bytes, max_map_key_length}
use binary.Codec.{w16, w32}

-- The wire format of a key.
pub wire_key : (k : KeyKind) → KeyVal k → List ℕ
wire_key string_key key = little_endian 2 (length key) ++ key
wire_key bool_key key = wire_kind bool key
wire_key (int_key native) key = wire_kind (int w64) key
wire_key (int_key i8) key = wire_kind (int w8) key
wire_key (int_key i16) key = little_endian 2 (word 64 key % 2 ^ 16)
wire_key (int_key i32) key = little_endian 4 (word 64 key % 2 ^ 32)
wire_key (int_key i64) key = little_endian 8 (word 64 key)
wire_key (uint_key native) key = wire_kind (uint w64) key
wire_key (uint_key i8) key = wire_kind (uint w8) key
wire_key (uint_key i16) key = little_endian 2 (key % 2 ^ 16)
wire_key (uint_key i32) key = little_endian 4 (key % 2 ^ 32)
wire_key (uint_key i64) key = little_endian 8 key

-- The keys that a map of that type can hold and write.
abbrev pub FitsKey : (k : KeyKind) → KeyVal k → Type 0
FitsKey string_key key = length key ≤ max_map_key_length
FitsKey bool_key key = Unit {0}
FitsKey (int_key k) key = InRange (bits (width_of k)) key
FitsKey (uint_key k) key = key < 2 ^ bits (width_of k)

pub write_key-Encodes :
    (k : KeyKind) (key : KeyVal k) → FitsKey k key → Encodes (write_key k) (wire_key k) key
unfolding write_key wire_key
write_key-Encodes string_key key h e =
    rw (
      le→ltb_false max_map_key_length (length key) h,
      (write_uint_lem (length key) e).0,
      write-write,
    )
write_key-Encodes bool_key key h e = encode_primitive-Encodes bool key e
write_key-Encodes (int_key native) key h e = encode_primitive-Encodes (int w64) key e
write_key-Encodes (int_key i8) key h e = encode_primitive-Encodes (int w8) key e
write_key-Encodes (int_key i16) key h e = rw ((write_uint_lem _ e).0)
write_key-Encodes (int_key i32) key h e = rw ((write_uint_lem _ e).1)
write_key-Encodes (int_key i64) key h e = rw ((write_uint_lem _ e).2)
write_key-Encodes (uint_key native) key h e = encode_primitive-Encodes (uint w64) key e
write_key-Encodes (uint_key i8) key h e = encode_primitive-Encodes (uint w8) key e
write_key-Encodes (uint_key i16) key h e = rw ((write_uint_lem _ e).0)
write_key-Encodes (uint_key i32) key h e = rw ((write_uint_lem _ e).1)
write_key-Encodes (uint_key i64) key h e = rw ((write_uint_lem _ e).2)

word_fits : (v : ℤ) → word 64 v < 2 ^ 64
word_fits (pos n) = omega arith
word_fits (negsuc n) = omega arith

word_back : (v : ℤ) → InRange 64 v → signed 64 (word 64 v) ≡ v
word_back (pos n) h = ground arith
word_back (negsuc n) h = ground arith

pub read_key-Decodes :
    (k : KeyKind) (key : KeyVal k) → FitsKey k key → Decodes (read_key k) (wire_key k) key
unfolding read_key wire_key
read_key-Decodes string_key key h k front rest = rw (
  append_assoc,
  (read_uint_lem _).0,
  read_fixed-holding k 2 (length key) front (key ++ rest) (omega arith) (omega arith),
  slice-holding k key (front ++ little_endian 2 (length key)) rest (omega arith),
  append_assoc,
)
read_key-Decodes bool_key key h k front rest = decode_primitive-Decodes bool key h k front rest
read_key-Decodes (int_key native) key h k front rest =
    decode_primitive-Decodes (int w64) key h k front rest
read_key-Decodes (int_key i8) key h k front rest =
    decode_primitive-Decodes (int w8) key h k front rest
read_key-Decodes (int_key i16) key h k front rest = rw (
  (read_uint_lem _).0,
  read_fixed-holding k 2 (word 64 key % 2 ^ 16) front rest (omega arith) (omega arith),
  to_signed_self w16 key h,
)
read_key-Decodes (int_key i32) key h k front rest = rw (
  (read_uint_lem _).1,
  read_fixed-holding k 4 (word 64 key % 2 ^ 32) front rest (omega arith) (omega arith),
  to_signed_self w32 key h,
)
read_key-Decodes (int_key i64) key h k front rest =
    rw
      (
        (read_uint_lem _).2,
        read_fixed-holding k 8 (word 64 key) front rest (omega arith) (word_fits key),
      )
      (rw (word_back key h))
read_key-Decodes (uint_key native) key h k front rest =
    decode_primitive-Decodes (uint w64) key h k front rest
read_key-Decodes (uint_key i8) key h k front rest =
    decode_primitive-Decodes (uint w8) key h k front rest
read_key-Decodes (uint_key i16) key h k front rest =
    rw
      (
        (read_uint_lem _).0,
        read_fixed-holding k 2 (key % 2 ^ 16) front rest (omega arith) (omega arith),
      )
      (ground arith)
read_key-Decodes (uint_key i32) key h k front rest =
    rw
      (
        (read_uint_lem _).1,
        read_fixed-holding k 4 (key % 2 ^ 32) front rest (omega arith) (omega arith),
      )
      (ground arith)
read_key-Decodes (uint_key i64) key h k front rest =
    rw ((read_uint_lem _).2, read_fixed-holding k 8 key front rest (omega arith) h)

pub write_key-long :
    (key : List ℕ)
    → max_map_key_length < length key
    → (e : Encoder) → write_key string_key key e ≡ (err map_key_too_long, e)
unfolding write_key write_string_key check_map_key
write_key-long key h e = rw (lt→ltb max_map_key_length (length key) h)

pub same_bytes-eq : (a b : List ℕ) → same_bytes a b ≡ true → a ≡ b
unfolding same_bytes
same_bytes-eq [] [] h = refl
same_bytes-eq [] (y ∷ b) h = cc
same_bytes-eq (x ∷ a) [] h = cc
same_bytes-eq (x ∷ a) (y ∷ b) h = ground (arith, same_bytes-eq a b)

same_bytes_self : (a : List ℕ) → same_bytes a a ≡ true
unfolding same_bytes
same_bytes_self [] = refl
same_bytes_self (x ∷ a) = ground (arith, same_bytes_self a)

-- The equality of keys is that of their values.
pub same_key-eq : (k : KeyKind) (a b : KeyVal k) → same_key k a b ≡ true → a ≡ b
unfolding same_key
same_key-eq string_key a b h = same_bytes-eq a b h
same_key-eq bool_key true true h = refl
same_key-eq bool_key true false h = cc
same_key-eq bool_key false true h = cc
same_key-eq bool_key false false h = refl
same_key-eq (int_key k) (pos a) (pos b) h = ground arith
same_key-eq (int_key k) (pos a) (negsuc b) h = cc
same_key-eq (int_key k) (negsuc a) (pos b) h = cc
same_key-eq (int_key k) (negsuc a) (negsuc b) h = ground arith
same_key-eq (uint_key k) a b h = ground arith

pub same_key_self : (k : KeyKind) (a : KeyVal k) → same_key k a a ≡ true
unfolding same_key
same_key_self string_key a = same_bytes_self a
same_key_self bool_key true = refl
same_key_self bool_key false = refl
same_key_self (int_key k) (pos a) = ground arith
same_key_self (int_key k) (negsuc a) = ground arith
same_key_self (uint_key k) a = ground arith

pub length-wire_key : (k : KeyKind) (key : KeyVal k) → 1 ≤ length (wire_key k key)
unfolding wire_key
length-wire_key string_key key = rw (length-append, length-little_endian) (omega arith)
length-wire_key bool_key key = length-wire_kind bool key
length-wire_key (int_key native) key = length-wire_kind (int w64) key
length-wire_key (int_key i8) key = length-wire_kind (int w8) key
length-wire_key (int_key i16) key = rw length-little_endian (omega arith)
length-wire_key (int_key i32) key = rw length-little_endian (omega arith)
length-wire_key (int_key i64) key = rw length-little_endian (omega arith)
length-wire_key (uint_key native) key = length-wire_kind (uint w64) key
length-wire_key (uint_key i8) key = length-wire_kind (uint w8) key
length-wire_key (uint_key i16) key = rw length-little_endian (omega arith)
length-wire_key (uint_key i32) key = rw length-little_endian (omega arith)
length-wire_key (uint_key i64) key = rw length-little_endian (omega arith)

pub string_wire_key : (key : List ℕ) → wire_key string_key key ≡ little_endian 2 (length key) ++ key
unfolding wire_key
string_wire_key key = refl

pub uint64_wire_key : (key : ℕ) → wire_key (uint_key i64) key ≡ little_endian 8 key
unfolding wire_key
uint64_wire_key key = refl
