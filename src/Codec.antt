-- ===== src/Codec.antt =====
-- codecs.go: the codecs as data, and the values that each takes. A Go codec is picked for a type
-- once and for all (scanner.go), so the type that reflection would consult at run time is written
-- into the codec here: the kind of a primitive, the size of a slice's elements, an array's length.
pub mod Estimates
pub mod Loops
pub mod Delivery
pub mod Primitive
pub mod Bytes
pub mod Varints
pub mod Count
pub mod Strings
pub mod Floats
pub mod Collection
pub mod Pointer
pub mod Key
pub mod Map
pub mod Union
pub mod Tree
pub mod Selection
pub mod MinBytes
pub mod FastMaps
pub mod Offsets
pub mod Direct
pub mod Written
pub mod RoundTrip
pub mod Bounds
pub mod Custom
use binary.Prelude.{ℕ, zero, suc, ◌+◌, ◌*◌, ◌==◌, ◌&&◌, ◌||◌, not, Bool, true, false, replicate}
use binary.Prelude.{List, [], ◌∷◌, Option, none, some}
use binary.Prelude.Int.{ℤ, pos}

-- The width of an integer type; `int`, `uint` and `uintptr` have 64 bits.
pub data Width : Type 0 where
  w8 w16 w32 w64 : Width

abbrev pub bits : Width → ℕ
bits w8 = 8
bits w16 = 16
bits w32 = 32
bits w64 = 64

-- reflect.Kind, as far as `primitiveCodec` tells it apart.
pub data Kind : Type 0 where
  string bool float32 float64 complex64 complex128 : Kind
  int uint : Width → Kind

-- A slice, whose elements take `size` bytes of memory, or an array of `n` elements.
pub data Shape : Type 0 where
  slice_of : ℕ → Shape
  array_of : ℕ → Shape

-- What `fixedSliceCodec` holds, its fields `elemSize` and `complex` in one.
pub data Fixed : Type 0 where
  floats32 floats64 complexes64 complexes128 : Fixed

-- The keys of a map, by their kind. reflect.Int and Int8 to Int64, and the same for the unsigned kinds.
pub data IntKind : Type 0 where
  native i8 i16 i32 i64 : IntKind

pub data KeyKind : Type 0 where
  string_key bool_key : KeyKind
  int_key uint_key : IntKind → KeyKind

abbrev pub width_of : IntKind → Width
width_of native = w64
width_of i8 = w8
width_of i16 = w16
width_of i32 = w32
width_of i64 = w64

abbrev pub KeyVal : KeyKind → Type 0
KeyVal string_key = List ℕ
KeyVal bool_key = Bool
KeyVal (int_key k) = ℤ
KeyVal (uint_key k) = ℕ

-- `stringMapValue`
pub data Plain : Type 0 where
  plain_string plain_bytes plain_uint64 : Plain

abbrev pub PlainVal : Plain → Type 0
PlainVal plain_string = List ℕ
PlainVal plain_bytes = List ℕ
PlainVal plain_uint64 = ℕ

mutual
  pub data Codec : Type 0 where
    primitive : Kind → Codec
    pointer : Codec → Codec
    byte_slice : Codec
    bool_slice : Codec
    string_slice : Shape → Codec
    fixed_slice : Shape → Fixed → Codec
    varint_slice : Width → Codec
    varuint_slice : Width → Codec
    collection : Shape → Codec → Codec
    slice_of_ptr : Codec → Codec
    struct : Fields → Codec
    map_of : KeyKind → Codec → Codec
    string_map : Plain → Codec
    uint64_map : Codec
    union : Arms → Codec

  -- The fields of a struct in order; one that is blank, unexported or tagged "-" is skipped.
  pub data Fields : Type 0 where
    no_fields : Fields
    field : Codec → Fields → Fields
    skipped : Fields → Fields

  -- The arms of a union: `unionArm`, its tag and the codec of what its field points to.
  pub data Arms : Type 0 where
    no_arms : Arms
    arm : ℕ → Codec → Arms → Arms

abbrev pub KindVal : Kind → Type 0
KindVal string = List ℕ
KindVal bool = Bool
KindVal float32 = ℕ
KindVal float64 = ℕ
KindVal complex64 = ℕ × ℕ
KindVal complex128 = ℕ × ℕ
KindVal (int w) = ℤ
KindVal (uint w) = ℕ

abbrev pub FixedVal : Fixed → Type 0
FixedVal floats32 = ℕ
FixedVal floats64 = ℕ
FixedVal complexes64 = ℕ × ℕ
FixedVal complexes128 = ℕ × ℕ

-- The values that a codec encodes. A nil slice and an empty one are the same, and so are the nil
-- pointer and `none`.
abbrev mutual
  pub Val : Codec → Type 0
  Val (primitive k) = KindVal k
  Val (pointer c) = Option (Val c)
  Val byte_slice = List ℕ
  Val bool_slice = List Bool
  Val (string_slice sh) = List (List ℕ)
  Val (fixed_slice sh f) = List (FixedVal f)
  Val (varint_slice w) = List ℤ
  Val (varuint_slice w) = List ℕ
  Val (collection sh c) = List (Val c)
  Val (slice_of_ptr c) = List (Option (Val c))
  Val (struct fs) = Vals fs
  Val (map_of k c) = List (KeyVal k × Val c)
  Val (string_map p) = List (List ℕ × PlainVal p)
  Val uint64_map = List (ℕ × ℕ)
  Val (union arms) = Opts arms

  pub Vals : Fields → Type 0
  Vals no_fields = Unit {0}
  Vals (field c fs) = Val c × Vals fs
  Vals (skipped fs) = Vals fs

  pub Opts : Arms → Type 0
  Opts no_arms = Unit {0}
  Opts (arm tag c arms) = Option (Val c) × Opts arms

abbrev pub zero_kind : (k : Kind) → KindVal k
zero_kind string = []
zero_kind bool = false
zero_kind float32 = 0
zero_kind float64 = 0
zero_kind complex64 = (0, 0)
zero_kind complex128 = (0, 0)
zero_kind (int w) = pos 0
zero_kind (uint w) = 0

abbrev pub zero_fixed : (f : Fixed) → FixedVal f
zero_fixed floats32 = 0
zero_fixed floats64 = 0
zero_fixed complexes64 = (0, 0)
zero_fixed complexes128 = (0, 0)

abbrev pub zero_of {ℓ} : {A : Type ℓ} → Shape → A → List A
zero_of (slice_of size) a = []
zero_of (array_of n) a = replicate n a

-- `reflect.Zero`.
abbrev mutual
  pub zero_value : (c : Codec) → Val c
  zero_value (primitive k) = zero_kind k
  zero_value (pointer c) = none
  zero_value byte_slice = []
  zero_value bool_slice = []
  zero_value (string_slice sh) = zero_of sh []
  zero_value (fixed_slice sh f) = zero_of sh (zero_fixed f)
  zero_value (varint_slice w) = []
  zero_value (varuint_slice w) = []
  zero_value (collection sh c) = zero_of sh (zero_value c)
  zero_value (slice_of_ptr c) = []
  zero_value (struct fs) = zero_values fs
  zero_value (map_of k c) = []
  zero_value (string_map p) = []
  zero_value uint64_map = []
  zero_value (union arms) = no_values arms

  pub zero_values : (fs : Fields) → Vals fs
  zero_values no_fields = tt
  zero_values (field c fs) = (zero_value c, zero_values fs)
  zero_values (skipped fs) = zero_values fs

  pub no_values : (arms : Arms) → Opts arms
  no_values no_arms = tt
  no_values (arm tag c arms) = (none, no_values arms)
