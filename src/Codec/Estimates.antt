-- ===== src/Codec/Estimates.antt =====
-- codecs.go: what the decoder estimates of a codec: that it writes nothing, and the least that it writes.
use binary.Prelude.{ℕ, ◌+◌, ◌*◌, ◌==◌, ◌&&◌, ◌||◌, not, Bool, true, false}
use binary.Codec.{
  Codec, Fields, Shape, Fixed, slice_of, array_of, floats32, floats64, complexes64, complexes128,
}
use binary.Codec.{
  primitive, pointer, byte_slice, bool_slice, string_slice, fixed_slice, varint_slice,
  varuint_slice,
}
use binary.Codec.{
  collection, slice_of_ptr, struct, map_of, string_map, uint64_map, union, no_fields, field,
  skipped,
}

abbrev pub is_empty_array : Shape → Bool
is_empty_array (slice_of size) = false
is_empty_array (array_of n) = n == 0

abbrev pub is_array : Shape → Bool
is_array (slice_of size) = false
is_array (array_of n) = true

-- `isZeroWireCodec` and `hasWireData`.
unfoldable mutual
  pub is_zero_wire : Codec → Bool
  is_zero_wire (struct fs) = not (has_wire_data fs)
  is_zero_wire (collection sh c) = is_array sh && (is_empty_array sh || is_zero_wire c)
  is_zero_wire (string_slice sh) = is_empty_array sh
  is_zero_wire (fixed_slice sh f) = is_empty_array sh
  is_zero_wire (primitive k) = false
  is_zero_wire (pointer c) = false
  is_zero_wire byte_slice = false
  is_zero_wire bool_slice = false
  is_zero_wire (varint_slice w) = false
  is_zero_wire (varuint_slice w) = false
  is_zero_wire (slice_of_ptr c) = false
  is_zero_wire (map_of k c) = false
  is_zero_wire (string_map p) = false
  is_zero_wire uint64_map = false
  is_zero_wire (union arms) = false

  pub has_wire_data : Fields → Bool
  has_wire_data no_fields = false
  has_wire_data (field c fs) = not (is_zero_wire c) || has_wire_data fs
  has_wire_data (skipped fs) = has_wire_data fs

-- The least bytes of an element times an array's length, and the length of a slice: a byte.
abbrev pub min_of_shape : Shape → ℕ → ℕ
min_of_shape (slice_of size) min = 1
min_of_shape (array_of n) min = n * min

abbrev pub fixed_size : Fixed → ℕ
fixed_size floats32 = 4
fixed_size floats64 = 8
fixed_size complexes64 = 8
fixed_size complexes128 = 16

-- `wireMinBytes`.
unfoldable mutual
  pub wire_min_bytes : Codec → ℕ
  wire_min_bytes (primitive k) = 1
  wire_min_bytes (pointer c) = 1
  wire_min_bytes byte_slice = 1
  wire_min_bytes bool_slice = 1
  wire_min_bytes (varint_slice w) = 1
  wire_min_bytes (varuint_slice w) = 1
  wire_min_bytes (struct fs) = min_of_fields fs
  wire_min_bytes (collection sh c) = min_of_shape sh (wire_min_bytes c)
  wire_min_bytes (slice_of_ptr c) = 1
  wire_min_bytes (map_of k c) = 1
  wire_min_bytes (string_map p) = 1
  wire_min_bytes uint64_map = 1
  wire_min_bytes (union arms) = 2
  wire_min_bytes (string_slice sh) = min_of_shape sh 1
  wire_min_bytes (fixed_slice sh f) = min_of_shape sh (fixed_size f)

  pub min_of_fields : Fields → ℕ
  min_of_fields no_fields = 0
  min_of_fields (field c fs) = wire_min_bytes c + min_of_fields fs
  min_of_fields (skipped fs) = min_of_fields fs
