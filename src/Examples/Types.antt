-- ===== src/Examples/Types.antt =====
-- The scan of a few types.
use binary.Prelude.{ℕ, ◌≡◌, ◌≢◌, refl, true, false, [], ◌∷◌}
use binary.Base.{ok}
use binary.Codec.{
  Codec, Arms, arm, no_arms, union, primitive, struct, field, skipped, no_fields, string, uint, w16,
}
use binary.Codec.{varuint_slice, i16}
use binary.Codec.Key.{same_bytes}
use binary.Codec.Tree.Fits.{IsCodec}
use binary.Scanner.Tags.{GoField, role_of}
use binary.Scanner.{
  GoType, GoFields, basic, ptr_to, slice_type, struct_type, unsupported, end_of_struct, go_field,
  go_string, go_uint, scan_type,
}
use binary.Scanner.Structs.{tags_in, plain_in}
use binary.Scanner.Theorems.{scan_type-IsCodec}

-- An exported field without a tag, one that is not exported, and the tags "1,union" and "200,union".
abbrev exported : GoField
exported = record { blank = false; unexported = false; tag = [] }

abbrev hidden : GoField
hidden = record { blank = false; unexported = true; tag = [] }

abbrev first_arm : GoField
first_arm = record {
  blank = false;
  unexported = false;
  tag = 49 ∷ 44 ∷ 117 ∷ 110 ∷ 105 ∷ 111 ∷ 110 ∷ [];
}

abbrev second_arm : GoField
second_arm = record {
  blank = false;
  unexported = false;
  tag = 50 ∷ 48 ∷ 48 ∷ 44 ∷ 117 ∷ 110 ∷ 105 ∷ 111 ∷ 110 ∷ [];
}

-- A size for what a slice may hold.
abbrev sizes : GoType → ℕ
sizes t = 8

-- struct { Text *string `binary:"1,union"`; Code *uint16 `binary:"200,union"` }
abbrev choices : GoFields
choices =
    go_field first_arm (ptr_to (basic false go_string))
      (go_field second_arm (ptr_to (basic false (go_uint i16))) end_of_struct)

abbrev choice_arms : Arms
choice_arms = arm 1 (primitive string) (arm 200 (primitive (uint w16)) no_arms)

choices_scanned : scan_type sizes (struct_type choices) ≡ ok (union choice_arms)
unfolding scan_type role_of same_bytes
choices_scanned = refl

-- struct { Title Name; hidden func(); Ids []uint16; Choice struct{ … } }, with `type Name string`.
abbrev message : GoType
message = struct_type (
    go_field exported (basic true go_string) (
      go_field hidden unsupported (
        go_field exported (slice_type false (basic false (go_uint i16)))
          (go_field exported (struct_type choices) end_of_struct))))

abbrev message_codec : Codec
message_codec = struct (
    field (primitive string)
      (skipped (field (varuint_slice w16) (field (union choice_arms) no_fields))))

message_scanned : scan_type sizes message ≡ ok message_codec
unfolding scan_type role_of same_bytes
message_scanned = refl

scan_type-IsCodec_example : IsCodec message_codec
scan_type-IsCodec_example = scan_type-IsCodec sizes message message_codec message_scanned

abbrev mixed : GoFields
mixed = go_field exported (basic false go_string) choices

mixed-tags : tags_in mixed ≢ []
unfolding tags_in role_of same_bytes
mixed-tags e = cc

mixed-plain : plain_in mixed ≡ true
unfolding plain_in role_of same_bytes
mixed-plain = refl
