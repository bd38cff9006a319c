-- ===== src/Codec/Tree/Fits.antt =====
-- The values that a codec takes, and the codecs that a type can have.
use binary.Prelude.{ℕ, ◌*◌, ◌≤◌, All, length}
use binary.Decoder.{max_alloc}
use binary.Codec.{
  Codec, Fields, primitive, pointer, byte_slice, bool_slice, string_slice, fixed_slice,
}
use binary.Codec.{
  varint_slice, varuint_slice, collection, slice_of_ptr, struct, no_fields, field, skipped,
}
use binary.Codec.{Val, Vals}
use binary.Codec.Primitive.{FitsKind}
use binary.Codec.Bytes.{FitsBytes}
use binary.Codec.Varints.{FitsSigned}
use binary.Codec.Varints.{FitsUnsigned, IsWide}
use binary.Codec.Strings.{FitsStrings}
use binary.Codec.Floats.Laws.{FitsFixeds}
use binary.Codec.Count.{FitsShape}
use binary.Codec.Pointer.{Behind}
use binary.Prelude.{suc, none, some, ◌/◌}
use binary.Stream.{max_int}
use binary.Codec.{map_of, string_map, uint64_map, union, Arms, no_arms, arm, Opts}
use binary.Codec.Key.Laws.{FitsKey}
use binary.Codec.Map.Laws.{IsMap}
use binary.Codec.Map.Fast.Laws.{FitsStringMap, FitsUint64Map}
use binary.Codec.Union.Laws.{IsTags}
use binary.Codec.Tree.{wire, tags_of}

-- How many arms of a union are set.
abbrev pub set_arms : (arms : Arms) → Opts arms → ℕ
set_arms no_arms v = 0
set_arms (arm tag c arms) (none, vs) = set_arms arms vs
set_arms (arm tag c arms) (some v, vs) = suc (set_arms arms vs)

-- The values of the Go type behind a codec: integers in their range, arrays of their length, and
-- nothing larger than the memory that Go gives out at once.
abbrev mutual
  pub Fits : (c : Codec) → Val c → Type 0
  Fits (primitive k) v = FitsKind k v
  Fits (pointer c) v = Behind (Fits c) v
  Fits byte_slice v = FitsBytes v
  Fits bool_slice v = FitsBytes v
  Fits (string_slice sh) v = FitsStrings sh v
  Fits (fixed_slice sh f) v = FitsFixeds sh f v
  Fits (varint_slice w) v = FitsSigned w v
  Fits (varuint_slice w) v = FitsUnsigned w v
  Fits (collection sh c) v = FitsShape sh v × All (Fits c) v
  Fits (slice_of_ptr c) v = All (Behind (Fits c)) v × (length v * 8 ≤ max_alloc)
  Fits (struct fs) v = FitsFields fs v
  Fits (map_of k c) v =
      All (λ e. FitsKey k e.0) v × All (λ e. Fits c e.1) v × IsMap k v × (length v ≤ max_int)
  Fits (string_map p) v = FitsStringMap p v
  Fits uint64_map v = FitsUint64Map v
  Fits (union arms) v = (set_arms arms v ≤ 1) × FitsOpts arms v

  pub FitsFields : (fs : Fields) → Vals fs → Type 0
  FitsFields no_fields v = Unit {0}
  FitsFields (field c fs) (v, vs) = Fits c v × FitsFields fs vs
  FitsFields (skipped fs) vs = FitsFields fs vs

  pub FitsOpts : (arms : Arms) → Opts arms → Type 0
  FitsOpts no_arms v = Unit {0}
  FitsOpts (arm tag c arms) (none, vs) = FitsOpts arms vs
  FitsOpts (arm tag c arms) (some v, vs) =
      Fits c v × (length (wire c v) ≤ max_int / 2) × FitsOpts arms vs

-- What the scanner makes sure of: no slice of bytes as a slice of varints, and the tags of unions.
abbrev mutual
  pub IsCodec : Codec → Type 0
  IsCodec (primitive k) = Unit {0}
  IsCodec (pointer c) = IsCodec c
  IsCodec byte_slice = Unit {0}
  IsCodec bool_slice = Unit {0}
  IsCodec (string_slice sh) = Unit {0}
  IsCodec (fixed_slice sh f) = Unit {0}
  IsCodec (varint_slice w) = Unit {0}
  IsCodec (varuint_slice w) = IsWide w
  IsCodec (collection sh c) = IsCodec c
  IsCodec (slice_of_ptr c) = IsCodec c
  IsCodec (struct fs) = AreFields fs
  IsCodec (map_of k c) = IsCodec c
  IsCodec (string_map p) = Unit {0}
  IsCodec uint64_map = Unit {0}
  IsCodec (union arms) = IsTags (tags_of arms) × AreArms arms

  pub AreFields : Fields → Type 0
  AreFields no_fields = Unit {0}
  AreFields (field c fs) = IsCodec c × AreFields fs
  AreFields (skipped fs) = AreFields fs

  pub AreArms : Arms → Type 0
  AreArms no_arms = Unit {0}
  AreArms (arm tag c arms) = IsCodec c × AreArms arms
