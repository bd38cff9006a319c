-- ===== src/Scanner/Laws.antt =====
-- The codec that a type is scanned to is one that the theorems on codecs are about.
use binary.Prelude.{ℕ, ◌||◌, Bool, true, false, if◌then◌else◌}
use binary.Prelude.{Option, none, some}
use binary.Base.{Result, ok, err, panic}
use binary.Codec.{
  native, i8, i16, i32, i64, KeyKind, string_key, bool_key, int_key, uint_key, Shape, slice_of,
}
use binary.Codec.{
  Codec, primitive, pointer, byte_slice, bool_slice, string_slice, fixed_slice, varint_slice,
  varuint_slice,
}
use binary.Codec.{collection, slice_of_ptr, struct, map_of, string_map, uint64_map, union}
use binary.Codec.{Plain, plain_string, plain_bytes, plain_uint64}
use binary.Codec.Tree.Fits.{IsCodec}
use binary.Scanner.{
  GoType, basic, ptr_to, array_type, slice_type, struct_type, map_type, unsupported, Basic,
  go_string, go_bool, go_float32, go_float64, go_complex64, go_complex128, go_int, go_uint, map_ok,
  scan_fixed_width, slice_of_basic, is_primitive, pointee, slice_of_pointee, slice_of_elem,
  found_or, own_codec, plain_of, common_map,
}

-- What holds of the result of a call that returns one.
abbrev pub Ok : {A : Type 0} → (A → Type 0) → Result A → Type 0
Ok P (ok a) = P a
Ok P (err x) = Unit {0}
Ok P panic = ⊥

abbrev pub Found : Option Codec → Type 0
Found none = Unit {0}
Found (some c) = IsCodec c

pub map_ok-Ok :
    {A B : Type 0} (P : A → Type 0) (Q : B → Type 0) (f : A → B) (r : Result A)
    → ((a : A) → P a → Q (f a))
    → Ok P r
    → Ok Q (map_ok f r)
unfolding map_ok
map_ok-Ok P Q f (ok a) g h = g a h
map_ok-Ok P Q f (err x) g h = tt
map_ok-Ok P Q f panic g h = h

pub found_or-Ok :
    (c : Option Codec) (r : Result Codec) → Found c → Ok IsCodec r → Ok IsCodec (found_or c r)
unfolding found_or
found_or-Ok none r h g = g
found_or-Ok (some c) r h g = h

pub scan_fixed_width-Found : (sh : Shape) (t : GoType) → Found (scan_fixed_width sh t)
unfolding scan_fixed_width
scan_fixed_width-Found sh (basic true b) = tt
scan_fixed_width-Found sh (basic false go_string) = tt
scan_fixed_width-Found sh (basic false go_bool) = tt
scan_fixed_width-Found sh (basic false go_float32) = tt
scan_fixed_width-Found sh (basic false go_float64) = tt
scan_fixed_width-Found sh (basic false go_complex64) = tt
scan_fixed_width-Found sh (basic false go_complex128) = tt
scan_fixed_width-Found sh (basic false (go_int k)) = tt
scan_fixed_width-Found sh (basic false (go_uint k)) = tt
scan_fixed_width-Found sh (ptr_to t) = tt
scan_fixed_width-Found sh (array_type n t) = tt
scan_fixed_width-Found sh (slice_type named t) = tt
scan_fixed_width-Found sh (struct_type fs) = tt
scan_fixed_width-Found sh (map_type named renamed k t) = tt
scan_fixed_width-Found sh unsupported = tt

slice_of_basic-IsCodec : (b : Basic) (c : Codec) → IsCodec c → IsCodec (slice_of_basic b c)
unfolding slice_of_basic
slice_of_basic-IsCodec go_string c h = h
slice_of_basic-IsCodec go_bool c h = tt
slice_of_basic-IsCodec go_float32 c h = h
slice_of_basic-IsCodec go_float64 c h = h
slice_of_basic-IsCodec go_complex64 c h = h
slice_of_basic-IsCodec go_complex128 c h = h
slice_of_basic-IsCodec (go_int k) c h = tt
slice_of_basic-IsCodec (go_uint native) c h = tt
slice_of_basic-IsCodec (go_uint i8) c h = tt
slice_of_basic-IsCodec (go_uint i16) c h = tt
slice_of_basic-IsCodec (go_uint i32) c h = tt
slice_of_basic-IsCodec (go_uint i64) c h = tt

pointee-Found : (c : Codec) → IsCodec c → Found (pointee c)
unfolding pointee
pointee-Found (pointer c) h = h
pointee-Found (primitive k) h = tt
pointee-Found byte_slice h = tt
pointee-Found bool_slice h = tt
pointee-Found (string_slice sh) h = tt
pointee-Found (fixed_slice sh f) h = tt
pointee-Found (varint_slice w) h = tt
pointee-Found (varuint_slice w) h = tt
pointee-Found (collection sh c) h = tt
pointee-Found (slice_of_ptr c) h = tt
pointee-Found (struct fs) h = tt
pointee-Found (map_of k c) h = tt
pointee-Found (string_map p) h = tt
pointee-Found uint64_map h = tt
pointee-Found (union arms) h = tt

slice_of_pointee-IsCodec :
    (c : Option Codec) (other : Codec)
    → Found c
    → IsCodec other
    → IsCodec (slice_of_pointee c other)
unfolding slice_of_pointee
slice_of_pointee-IsCodec none other h g = g
slice_of_pointee-IsCodec (some c) other h g = h

either-IsCodec : (b : Bool) (c d : Codec) → IsCodec c → IsCodec d → IsCodec (if b then c else d)
either-IsCodec true c d h g = h
either-IsCodec false c d h g = g

pub slice_of_elem-IsCodec :
    (size : ℕ) (t : GoType) (c : Codec) → IsCodec c → IsCodec (slice_of_elem size t c)
unfolding slice_of_elem
slice_of_elem-IsCodec size (basic named b) c h =
    either-IsCodec (is_primitive c) _ (collection (slice_of size) c)
      (slice_of_basic-IsCodec b (collection (slice_of size) c) h) h
slice_of_elem-IsCodec size (ptr_to t) c h =
    slice_of_pointee-IsCodec (pointee c) (collection (slice_of size) c) (pointee-Found c h) h
slice_of_elem-IsCodec size (array_type n t) c h = h
slice_of_elem-IsCodec size (slice_type named t) c h = h
slice_of_elem-IsCodec size (struct_type fs) c h = h
slice_of_elem-IsCodec size (map_type named renamed k t) c h = h
slice_of_elem-IsCodec size unsupported c h = h

own_codec-Found : (k : KeyKind) (p : Option Plain) → Found (own_codec k p)
unfolding own_codec
own_codec-Found string_key none = tt
own_codec-Found string_key (some p) = tt
own_codec-Found bool_key p = tt
own_codec-Found (int_key k) p = tt
own_codec-Found (uint_key native) p = tt
own_codec-Found (uint_key i8) p = tt
own_codec-Found (uint_key i16) p = tt
own_codec-Found (uint_key i32) p = tt
own_codec-Found (uint_key i64) none = tt
own_codec-Found (uint_key i64) (some plain_string) = tt
own_codec-Found (uint_key i64) (some plain_bytes) = tt
own_codec-Found (uint_key i64) (some plain_uint64) = tt

none_or-Found : (b : Bool) (c : Option Codec) → Found c → Found (if b then none else c)
none_or-Found true c h = tt
none_or-Found false c h = h

pub common_map-Found :
    (named renamed : Bool) (k : KeyKind) (t : GoType) → Found (common_map named renamed k t)
unfolding common_map
common_map-Found named renamed k t =
    none_or-Found (named || renamed) (own_codec k (plain_of t)) (own_codec-Found k (plain_of t))
