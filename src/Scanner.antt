-- ===== src/Scanner.antt =====
-- scanner.go: the choice of a codec for a Go type. Scanner/Cache has the table of the choices. A type is
-- given as data: types that have methods for their own codec are not among these, nor are maps with
-- keys of other kinds than Codec/Key has, nor recursive types, on which the scan does not end.
pub mod Tags
pub mod Laws
pub mod Structs
pub mod Theorems
pub mod Cache
pub mod Methods
use binary.Prelude.{
  ℕ, ◌||◌, ◌==◌, Bool, true, false, if◌then◌else◌, List, [], ◌∷◌, Option, none, some,
}
use binary.Base.{
  Result, ok, err, panic, arm_not_pointer, duplicate_tag, mixed_fields, unsupported_type,
  invalid_tag,
}
use binary.Codec.{Kind, string, bool, float32, float64, complex64, complex128, int, uint}
use binary.Codec.{IntKind, native, i8, i16, i32, i64, width_of, KeyKind, string_key, uint_key}
use binary.Codec.{Shape, slice_of, array_of, floats32, floats64, complexes64, complexes128}
use binary.Codec.{
  Codec, primitive, pointer, byte_slice, bool_slice, string_slice, fixed_slice, varint_slice,
  varuint_slice,
}
use binary.Codec.{collection, slice_of_ptr, struct, map_of, string_map, uint64_map, union}
use binary.Codec.{
  Fields, no_fields, field, skipped, Arms, no_arms, arm, Plain, plain_string, plain_bytes,
  plain_uint64,
}
use binary.Scanner.Tags.{GoField, Role, left_out, plain, invalid, union_arm, role_of}

-- The types that `scanPrimitive` takes.
pub data Basic : Type 0 where
  go_string go_bool go_float32 go_float64 go_complex64 go_complex128 : Basic
  go_int go_uint : IntKind → Basic

-- Where a type is compared with one that has no name of its own (`string`, `[]byte`,
-- `map[string]string`), a Boolean says whether it has one (`type Name string`).
mutual
  pub data GoType : Type 0 where
    basic : Bool → Basic → GoType
    ptr_to : GoType → GoType
    array_type : ℕ → GoType → GoType
    slice_type : Bool → GoType → GoType
    struct_type : GoFields → GoType
    map_type : Bool → Bool → KeyKind → GoType → GoType
    unsupported : GoType

  pub data GoFields : Type 0 where
    end_of_struct : GoFields
    go_field : GoField → GoType → GoFields → GoFields

-- `scanPrimitive`, with the kind that the codec asks for at run time.
pub kind_of : Basic → Kind
kind_of go_string = string
kind_of go_bool = bool
kind_of go_float32 = float32
kind_of go_float64 = float64
kind_of go_complex64 = complex64
kind_of go_complex128 = complex128
kind_of (go_int k) = int (width_of k)
kind_of (go_uint k) = uint (width_of k)

pub map_ok : {A B : Type 0} → (A → B) → Result A → Result B
map_ok f (ok a) = ok (f a)
map_ok f (err x) = err x
map_ok f panic = panic

-- `scanFixedWidth`
pub scan_fixed_width : Shape → GoType → Option Codec
scan_fixed_width sh (basic false go_string) = some (string_slice sh)
scan_fixed_width sh (basic false go_float32) = some (fixed_slice sh floats32)
scan_fixed_width sh (basic false go_float64) = some (fixed_slice sh floats64)
scan_fixed_width sh (basic false go_complex64) = some (fixed_slice sh complexes64)
scan_fixed_width sh (basic false go_complex128) = some (fixed_slice sh complexes128)
scan_fixed_width sh t = none

-- The switch of `scanSlice` over an element of a primitive kind.
slice_of_basic : Basic → Codec → Codec
slice_of_basic (go_uint i8) other = byte_slice
slice_of_basic go_bool other = bool_slice
slice_of_basic (go_uint k) other = varuint_slice (width_of k)
slice_of_basic (go_int k) other = varint_slice (width_of k)
slice_of_basic b other = other

is_primitive : Codec → Bool
is_primitive (primitive k) = true
is_primitive c = false

pointee : Codec → Option Codec
pointee (pointer c) = some c
pointee c = none

slice_of_pointee : Option Codec → Codec → Codec
slice_of_pointee (some c) other = slice_of_ptr c
slice_of_pointee none other = other

-- The switch of `scanSlice`, with the codec of the element.
pub slice_of_elem : ℕ → GoType → Codec → Codec
unfolding slice_of_basic is_primitive pointee slice_of_pointee
slice_of_elem size (basic named b) c =
    let other : Codec = collection (slice_of size) c in
    if is_primitive c then slice_of_basic b other else other
slice_of_elem size (ptr_to t) c = slice_of_pointee (pointee c) (collection (slice_of size) c)
slice_of_elem size t c = collection (slice_of size) c

-- A codec that is found before the element is scanned.
pub found_or : Option Codec → Result Codec → Result Codec
found_or (some c) other = ok c
found_or none other = other

-- The types of maps that have a codec of their own, by the type of the value and the key.
plain_of : GoType → Option Plain
plain_of (slice_type false (basic false (go_uint i8))) = some plain_bytes
plain_of (basic false go_string) = some plain_string
plain_of (basic false (go_uint i64)) = some plain_uint64
plain_of t = none

own_codec : KeyKind → Option Plain → Option Codec
own_codec string_key (some p) = some (string_map p)
own_codec (uint_key i64) (some plain_uint64) = some uint64_map
own_codec k p = none

pub common_map : Bool → Bool → KeyKind → GoType → Option Codec
unfolding plain_of own_codec
common_map named renamed k t = if named || renamed then none else own_codec k (plain_of t)

is_pointer : GoType → Bool
is_pointer (ptr_to t) = true
is_pointer t = false

pub seen_tag : ℕ → List ℕ → Bool
seen_tag id [] = false
seen_tag id (tag ∷ tags) = tag == id || seen_tag id tags

-- The tags that are seen before the next field.
then_seen : Role → List ℕ → List ℕ
then_seen (union_arm id) seen = id ∷ seen
then_seen role seen = seen

-- An arm, what its element is scanned to, and the fields behind it.
add_arm : ℕ → Result Codec → Result (Bool × Arms) → Result (Bool × Arms)
add_arm id (ok c) (ok (has_plain, arms)) = ok (has_plain, arm id c arms)
add_arm id (ok c) other = other
add_arm id (err x) other = err x
add_arm id panic other = panic

add_plain : Result (Bool × Arms) → Result (Bool × Arms)
add_plain (ok (has_plain, arms)) = ok (true, arms)
add_plain other = other

-- A round of the first loop of `scanStructCodec`, given what the fields behind come to.
scan_arm : Role → List ℕ → GoType → Result Codec → Result (Bool × Arms) → Result (Bool × Arms)
unfolding add_arm add_plain is_pointer seen_tag
scan_arm left_out seen t elem rest = rest
scan_arm plain seen t elem rest = add_plain rest
scan_arm invalid seen t elem rest = err invalid_tag
scan_arm (union_arm id) seen t elem rest =
    if is_pointer t
    then (if seen_tag id seen then err duplicate_tag else add_arm id elem rest)
    else err arm_not_pointer

-- The end of `scanStructCodec`; a struct has tagged fields where it has arms.
pub struct_codec : Result (Bool × Arms) → Result Fields → Result Codec
unfolding map_ok
struct_codec (ok (has_plain, no_arms)) fields = map_ok struct fields
struct_codec (ok (true, arm id c arms)) fields = err mixed_fields
struct_codec (ok (false, arm id c arms)) fields = ok (union (arm id c arms))
struct_codec (err x) fields = err x
struct_codec panic fields = panic

-- A round of the second loop.
scan_field : Role → Result Codec → Result Fields → Result Fields
unfolding map_ok
scan_field left_out c fields = map_ok skipped fields
scan_field role (ok c) fields = map_ok (field c) fields
scan_field role (err x) fields = err x
scan_field role panic fields = panic

-- `reflect.Type.Size` of an element is a parameter.
module _ (size_of : GoType → ℕ) where
  unfoldable mutual
    unfolding map_ok struct_codec scan_field scan_arm slice_of_elem common_map scan_fixed_width
        found_or then_seen kind_of

    -- `scanType`
    pub scan_type : GoType → Result Codec
    scan_type (basic named b) = ok (primitive (kind_of b))
    scan_type (ptr_to t) = map_ok pointer (scan_type t)
    scan_type (array_type n t) =
        found_or (scan_fixed_width (array_of n) t) (map_ok (collection (array_of n)) (scan_type t))
    scan_type (slice_type named t) =
        found_or (scan_fixed_width (slice_of (size_of t)) t)
          (map_ok (slice_of_elem (size_of t) t) (scan_type t))
    scan_type (struct_type fs) = struct_codec (scan_arms [] fs) (scan_fields fs)
    scan_type (map_type named renamed k t) =
        found_or (common_map named renamed k t) (map_ok (map_of k) (scan_type t))
    scan_type unsupported = err unsupported_type

    -- `scanType` of what an arm points to.
    scan_pointee : GoType → Result Codec
    scan_pointee (ptr_to t) = scan_type t
    scan_pointee t = err arm_not_pointer

    -- The loops of `scanStructCodec`: the arms with the note that there are plain fields, and the fields.
    scan_arms : List ℕ → GoFields → Result (Bool × Arms)
    scan_arms seen end_of_struct = ok (false, no_arms)
    scan_arms seen (go_field f t fs) =
        scan_arm (role_of f) seen t (scan_pointee t) (scan_arms (then_seen (role_of f) seen) fs)

    scan_fields : GoFields → Result Fields
    scan_fields end_of_struct = ok no_fields
    scan_fields (go_field f t fs) = scan_field (role_of f) (scan_type t) (scan_fields fs)
