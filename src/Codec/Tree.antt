-- ===== src/Codec/Tree.antt =====
-- EncodeTo and DecodeTo of every codec, and the bytes that they agree on.
pub mod Safety
pub mod Fits
use binary.Prelude.{ℕ, ◌*◌, ◌≤◌, List, [], ◌++◌, All, length, Bool, true, false}
use binary.Base.{M, ◌>>=◌, ◌>>◌, pure}
use binary.Encoder.{Encoder}
use binary.Decoder.{Decoder, max_alloc}
use binary.Codec.{
  Codec, Fields, primitive, pointer, byte_slice, bool_slice, string_slice, fixed_slice,
}
use binary.Codec.{
  varint_slice, varuint_slice, collection, slice_of_ptr, struct, no_fields, field, skipped,
}
use binary.Codec.{Val, Vals, zero_value}
use binary.Codec.Estimates.{is_zero_wire, wire_min_bytes}
use binary.Codec.Primitive.{encode_primitive, decode_primitive, wire_kind, FitsKind}
use binary.Codec.Bytes.{encode_bytes, decode_bytes, wire_bytes, FitsBytes}
use binary.Codec.Bytes.{encode_bools, decode_bools, wire_bools}
use binary.Codec.Varints.{encode_varints, decode_varints, wire_varints, FitsSigned}
use binary.Codec.Varints.{encode_varuints, decode_varuints, wire_varuints, FitsUnsigned, IsWide}
use binary.Codec.Strings.{encode_strings, decode_strings, wire_strings, FitsStrings}
use binary.Codec.Floats.{encode_fixeds, decode_fixeds, wire_fixeds}
use binary.Codec.Floats.Laws.{FitsFixeds}
use binary.Codec.Count.{FitsShape}
use binary.Codec.Collection.{encode_collection, decode_collection, wire_collection}
use binary.Codec.Pointer.{encode_pointer, decode_pointer, wire_pointer, Behind}
use binary.Codec.Pointer.{encode_slice_of_ptr, decode_slice_of_ptr, wire_slice_of_ptr}
use binary.Prelude.{zero, suc, ◌∷◌, Option, none, some}
use binary.Base.{Result, ok, err, panic}
use binary.Reader.{new_slice_reader}
use binary.Decoder.{memory}
use binary.Varint.{uvarint_bytes}
use binary.Codec.{
  map_of, string_map, uint64_map, union, Arms, no_arms, arm, Opts, no_values, string_key, uint_key,
  i64,
}
use binary.Codec.Map.{encode_map, decode_map}
use binary.Codec.Map.Laws.{wire_map}
use binary.Codec.Map.Fast.{encode_string_map, decode_string_map, plain_value_bytes}
use binary.Codec.Map.Fast.{encode_uint64_map, decode_uint64_map}
use binary.Codec.Union.{find_arm, encode_choice, decode_union}
use binary.Codec.Union.Laws.{wire_choice}
use binary.Codec.Offsets.{read_direct}
use binary.Prelude.{if◌then◌else◌}

-- A value written through an interface to the codec below it; a struct through the codecs of its fields in
-- order, as one without an address (Codec/Direct has the other path).
unfoldable mutual
  pub encode : (c : Codec) → Val c → M Encoder (Unit {0})
  encode (primitive k) v = encode_primitive k v
  encode (pointer c) v = encode_pointer (encode c) v
  encode byte_slice v = encode_bytes v
  encode bool_slice v = encode_bools v
  encode (string_slice sh) v = encode_strings sh v
  encode (fixed_slice sh f) v = encode_fixeds sh f v
  encode (varint_slice w) v = encode_varints v
  encode (varuint_slice w) v = encode_varuints w v
  encode (collection sh c) v = encode_collection sh (encode c) v
  encode (slice_of_ptr c) v = encode_slice_of_ptr (encode c) v
  encode (struct fs) v = encode_fields fs v
  encode (map_of k c) v = encode_map k (encode c) v
  encode (string_map p) v = encode_string_map p v
  encode uint64_map v = encode_uint64_map v
  encode (union arms) v = encode_choice (find_arm (arm_encoders arms v))

  pub encode_fields : (fs : Fields) → Vals fs → M Encoder (Unit {0})
  encode_fields no_fields v = pure tt
  encode_fields (field c fs) (v, vs) = do encode c v; encode_fields fs vs
  encode_fields (skipped fs) vs = encode_fields fs vs

  -- What the arms that are set are encoded with.
  pub arm_encoders : (arms : Arms) → Opts arms → List (ℕ × Option (M Encoder (Unit {0})))
  arm_encoders no_arms v = []
  arm_encoders (arm tag c arms) (none, vs) = (tag, none) ∷ arm_encoders arms vs
  arm_encoders (arm tag c arms) (some v, vs) = (tag, some (encode c v)) ∷ arm_encoders arms vs

-- `codec, isStruct := c.elemCodec.(*reflectStructCodec)`
abbrev pub is_struct : Codec → Bool
is_struct (struct fs) = true
is_struct c = false

abbrev pub this_arm : {A B : Type 0} → Result A → B → Result (Option A × B)
this_arm (ok v) vs = ok (some v, vs)
this_arm (err x) vs = err x
this_arm panic vs = panic

abbrev pub other_arm : {A B : Type 0} → Result B → Result (Option A × B)
other_arm (ok vs) = ok (none, vs)
other_arm (err x) = err x
other_arm panic = panic

abbrev pub tags_of : Arms → List ℕ
tags_of no_arms = []
tags_of (arm tag c arms) = tag ∷ tags_of arms

-- `hasDirect` of `scanStructCodec`, which is the mark of the first field.
abbrev pub has_primitive : Fields → Bool
has_primitive no_fields = false
has_primitive (field (primitive k) fs) = true
has_primitive (field c fs) = has_primitive fs
has_primitive (skipped fs) = has_primitive fs

-- The memory of a struct that was just declared.
abbrev pub none_held : ℕ → List ℕ
none_held i = []

-- The target has an address, as every target that `Decode` and the codecs pass on, so that a struct with a
-- field of a primitive kind is read at the offsets. It is a zero value, as a variable that was just declared.
unfoldable mutual
  pub decode : (c : Codec) → M Decoder (Val c)
  decode (primitive k) = decode_primitive k
  decode (pointer c) = decode_pointer (decode c)
  decode byte_slice = decode_bytes
  decode bool_slice = decode_bools
  decode (string_slice sh) = decode_strings sh
  decode (fixed_slice sh f) = decode_fixeds sh f
  decode (varint_slice w) = decode_varints w
  decode (varuint_slice w) = decode_varuints w
  decode (collection sh c) =
      decode_collection (decode c) (zero_value c) (is_struct c) (is_zero_wire c) (wire_min_bytes c)
        sh
  decode (slice_of_ptr c) = decode_slice_of_ptr (decode c)
  decode (struct fs) =
      if has_primitive fs then decode_direct_from none_held 0 fs else decode_fields fs
  decode (map_of k c) = decode_map k (wire_min_bytes c) (decode c)
  decode (string_map p) = decode_string_map p
  decode uint64_map = decode_uint64_map
  decode (union arms) = decode_union (tags_of arms) (no_values arms) (decode_arm arms)

  pub decode_fields : (fs : Fields) → M Decoder (Vals fs)
  decode_fields no_fields = pure tt
  decode_fields (field c fs) = do v ← decode c; vs ← decode_fields fs; pure (v, vs)
  decode_fields (skipped fs) = decode_fields fs

  -- The fields from a place on, with the memory that the target's field at each place holds.
  pub decode_direct_from : (ℕ → List ℕ) → ℕ → (fs : Fields) → M Decoder (Vals fs)
  decode_direct_from old i no_fields = pure tt
  decode_direct_from old i (field c fs) = do
    v ← read_direct (old i) c (decode c)
    vs ← decode_direct_from old (suc i) fs
    pure (v, vs)
  decode_direct_from old i (skipped fs) = decode_direct_from old (suc i) fs

  -- `decodeArm` of the arm at a place, which the table has given, and the struct with that arm alone.
  pub decode_arm : (arms : Arms) → ℕ → List ℕ → Result (Opts arms)
  decode_arm no_arms i body = panic
  decode_arm (arm tag c arms) zero body =
      this_arm (decode c (memory (new_slice_reader body))).0 (no_values arms)
  decode_arm (arm tag c arms) (suc i) body = other_arm (decode_arm arms i body)

-- The wire format, as a function of the value alone.
unfoldable mutual
  pub wire : (c : Codec) → Val c → List ℕ
  wire (primitive k) v = wire_kind k v
  wire (pointer c) v = wire_pointer (wire c) v
  wire byte_slice v = wire_bytes v
  wire bool_slice v = wire_bools v
  wire (string_slice sh) v = wire_strings sh v
  wire (fixed_slice sh f) v = wire_fixeds sh f v
  wire (varint_slice w) v = wire_varints v
  wire (varuint_slice w) v = wire_varuints v
  wire (collection sh c) v = wire_collection sh (wire c) v
  wire (slice_of_ptr c) v = wire_slice_of_ptr (wire c) v
  wire (struct fs) v = wire_fields fs v
  wire (map_of k c) v = wire_map k (wire c) v
  wire (string_map p) v = wire_map string_key (plain_value_bytes p) v
  wire uint64_map v = wire_map (uint_key i64) uvarint_bytes v
  wire (union arms) v = wire_choice (find_arm (arm_bodies arms v))

  pub wire_fields : (fs : Fields) → Vals fs → List ℕ
  wire_fields no_fields v = []
  wire_fields (field c fs) (v, vs) = wire c v ++ wire_fields fs vs
  wire_fields (skipped fs) vs = wire_fields fs vs

  pub arm_bodies : (arms : Arms) → Opts arms → List (ℕ × Option (List ℕ))
  arm_bodies no_arms v = []
  arm_bodies (arm tag c arms) (none, vs) = (tag, none) ∷ arm_bodies arms vs
  arm_bodies (arm tag c arms) (some v, vs) = (tag, some (wire c v)) ∷ arm_bodies arms vs
