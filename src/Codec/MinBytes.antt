-- ===== src/Codec/MinBytes.antt =====
-- The two estimates by which a decoder judges a count: `wireMinBytes` and `isZeroWireCodec`.
use binary.Prelude.{ℕ, ◌≤◌, ◌≡◌, refl, List, [], ◌∷◌, All, length}
use binary.Base.{wire_each}
use binary.Prelude.{replicate, ◌∙◌, arith, Bool, true, false, length-append, not, ◌||◌, ◌==◌}
use binary.Codec.{
  Codec, Fields, primitive, pointer, byte_slice, bool_slice, string_slice, fixed_slice,
}
use binary.Codec.{
  varint_slice, varuint_slice, collection, slice_of_ptr, struct, no_fields, field, skipped,
}
use binary.Codec.{Val, Vals, zero_value, zero_values}
use binary.Codec.Estimates.{is_zero_wire, wire_min_bytes, min_of_fields, has_wire_data}
use binary.Codec.{slice_of, array_of, zero_fixed}
use binary.Codec.Estimates.{fixed_size}
use native.Mathlib.Nat.{le_refl}
use binary.Codec.Primitive.{length-wire_kind}
use binary.Codec.Bytes.{wire_bytes, length-wire_bytes, length-wire_bools}
use binary.Codec.Varints.Laws.{length-wire_varints, length-wire_varuints}
use binary.Codec.Strings.{wire_strings}
use binary.Codec.Floats.{wire_fixed, wire_fixeds}
use binary.Codec.Floats.Laws.{length-wire_fixed}
use binary.Codec.Count.{count_bytes}
use binary.Codec.Collection.{wire_collection, min_of_shape-le, wireless_each}
use binary.Codec.Pointer.{length-wire_pointer}
use binary.Codec.Pointer.{length-wire_slice_of_ptr}
use binary.Codec.Loops.{All-of, All-map}
use binary.Codec.Tree.{wire, wire_fields, arm_bodies}
use binary.Codec.Tree.Fits.{Fits, FitsFields}
use binary.Codec.{map_of, string_map, uint64_map, union, string_key, uint_key, i64}
use binary.Codec.Map.Laws.{length-wire_map}
use binary.Codec.Map.Fast.{plain_value_bytes}
use binary.Varint.{uvarint_bytes}
use binary.Codec.Union.{find_arm}
use binary.Codec.Selection.{find_arm-one, length-wire_choice}

mutual
  unfolding wire wire_min_bytes wire_strings wire_fixeds wire_collection

  least : (c : Codec) (v : Val c) → Fits c v → wire_min_bytes c ≤ length (wire c v)
  least (primitive k) v h = length-wire_kind k v
  least (pointer c) v h = length-wire_pointer (wire c) v
  least byte_slice v h = length-wire_bytes v
  least bool_slice v h = length-wire_bools v
  least (string_slice sh) v h = min_of_shape-le sh wire_bytes 1 v (All-of _ v length-wire_bytes) h.0
  least (fixed_slice sh f) v h =
      min_of_shape-le sh (wire_fixed f) (fixed_size f) v
        (All-of _ v λ x. rw (length-wire_fixed f x) (le_refl _)) h.0
  least (varint_slice w) v h = length-wire_varints v
  least (varuint_slice w) v h = length-wire_varuints v
  least (collection sh c) v h =
      min_of_shape-le sh (wire c) (wire_min_bytes c) v (All-map _ _ v (least c) h.1) h.0
  least (slice_of_ptr c) v h = length-wire_slice_of_ptr (wire c) v
  least (struct fs) v h = fields_min_le fs v h
  least (map_of k c) v h = length-wire_map k (wire c) v
  least (string_map p) v h = length-wire_map string_key (plain_value_bytes p) v
  least uint64_map v h = length-wire_map (uint_key i64) uvarint_bytes v
  least (union arms) v h =
      length-wire_choice (find_arm (arm_bodies arms v)) (find_arm-one arms v h.0)

  fields_min_le :
      (fs : Fields) (v : Vals fs) → FitsFields fs v → min_of_fields fs ≤ length (wire_fields fs v)
  fields_min_le no_fields v h = omega arith
  fields_min_le (field c fs) (v, vs) h =
      rw (length-append (wire c v) (wire_fields fs vs))
        (omega (arith, least c v h.0, fields_min_le fs vs h.1))
  fields_min_le (skipped fs) vs h = fields_min_le fs vs h

-- For every codec, the wire format of a value of its type has at least the bytes that wireMinBytes
-- says of the codec.
pub min_le : (c : Codec) (v : Val c) → Fits c v → wire_min_bytes c ≤ length (wire c v)
min_le c v h = least c v h

empty_list : {A : Type 0} (xs : List A) → length xs ≡ 0 → xs ≡ []
empty_list [] h = refl
empty_list (x ∷ xs) h = absurd (omega arith)

not-or_false : (a b : Bool) → (not a || b) ≡ false → (a ≡ true) × (b ≡ false)
not-or_false true b h = (refl, h)
not-or_false false b h = cc

not-true : (a : Bool) → not a ≡ true → a ≡ false
not-true true h = cc
not-true false h = refl

or_false : (a : Bool) → a ≡ true → (a || false) ≡ true
or_false true h = refl
or_false false h = h

-- An array whose elements have no bytes, or that has no elements.
zero_array :
    {A : Type 0} (wire : A → List ℕ) (blank : A) (n : ℕ) (each : Bool) (xs : List A)
    → length xs ≡ n
    → (n == 0 || each) ≡ true
    → (each ≡ true → All (λ x. (x ≡ blank) × (wire x ≡ [])) xs)
    → (xs ≡ replicate n blank) × (wire_collection (array_of n) wire xs ≡ [])
unfolding wire_collection count_bytes
zero_array wire blank n true xs e h blanks =
    let (same, nothing) = wireless_each wire blank xs (blanks refl) in (rw (← e) same, nothing)
zero_array wire blank n false xs e h blanks =
    let none : n ≡ 0 = ground arith in
    let empty : xs ≡ [] = empty_list xs (e ∙ none) in
    rw (empty, none) (refl, unfold wire_each in refl)

mutual
  unfolding wire is_zero_wire wire_strings wire_fixeds wire_collection

  blank :
      (c : Codec) (v : Val c)
      → is_zero_wire c ≡ true
      → Fits c v
      → (v ≡ zero_value c) × (wire c v ≡ [])
  blank (struct fs) v z h = zero_wire_fields fs v (not-true (has_wire_data fs) z) h
  blank (collection (array_of n) c) v z h =
      zero_array (wire c) (zero_value c) n (is_zero_wire c) v h.0 z
        (λ none. All-map _ _ v (λ x hx. blank c x none hx) h.1)
  blank (collection (slice_of size) c) v z h = cc
  blank (string_slice (slice_of size)) v z h = cc
  blank (string_slice (array_of n)) v z h =
      zero_array wire_bytes [] n false v h.0 (or_false _ z) (λ e. cc)
  blank (fixed_slice (slice_of size) f) v z h = cc
  blank (fixed_slice (array_of n) f) v z h =
      zero_array (wire_fixed f) (zero_fixed f) n false v h.0 (or_false _ z) (λ e. cc)
  blank (primitive k) v z h = cc
  blank (pointer c) v z h = cc
  blank byte_slice v z h = cc
  blank bool_slice v z h = cc
  blank (varint_slice w) v z h = cc
  blank (varuint_slice w) v z h = cc
  blank (slice_of_ptr c) v z h = cc
  blank (map_of k c) v z h = cc
  blank (string_map p) v z h = cc
  blank uint64_map v z h = cc
  blank (union arms) v z h = cc

  zero_wire_fields :
      (fs : Fields) (v : Vals fs)
      → has_wire_data fs ≡ false
      → FitsFields fs v
      → (v ≡ zero_values fs) × (wire_fields fs v ≡ [])
  zero_wire_fields no_fields v z h = (refl, refl)
  zero_wire_fields (field c fs) (v, vs) z h =
      let (zc, zf) = not-or_false (is_zero_wire c) (has_wire_data fs) z in
      let (same, nothing) = blank c v zc h.0 in
      let (same', nothing') = zero_wire_fields fs vs zf h.1 in
      (rw (same, same'), rw (nothing, nothing'))
  zero_wire_fields (skipped fs) vs z h = zero_wire_fields fs vs z h

-- Where isZeroWireCodec says that a codec writes nothing, each value of its type is the zero value and
-- its wire format is empty.
pub zero_wire :
    (c : Codec) (v : Val c)
    → is_zero_wire c ≡ true
    → Fits c v
    → (v ≡ zero_value c) × (wire c v ≡ [])
zero_wire c v z h = blank c v z h
