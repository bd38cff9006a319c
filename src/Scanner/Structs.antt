-- ===== src/Scanner/Structs.antt =====
-- The scan of structs: the arms of a union, and the tags that they have.
use binary.Prelude.{
  ℕ, ◌<◌, ◌≡◌, ◌≢◌, refl, ap, arith, All, ◌||◌, ◌==◌, Bool, true, false, Bool-cases, inl, inr,
}
use binary.Prelude.{List, [], ◌∷◌, Option}
use binary.Base.{Result, ok, err, panic}
use binary.Codec.{slice_of}
use binary.Codec.{Codec, pointer}
use binary.Codec.{collection, struct, map_of}
use binary.Codec.{Fields, field, skipped, Arms, no_arms, arm}
use binary.Codec.Loops.{All-map}
use binary.Codec.Tree.{tags_of}
use binary.Codec.Tree.Fits.{IsCodec, AreFields, AreArms}
use binary.Codec.Union.Laws.{IsTags}
use binary.Scanner.Tags.{
  Role, left_out, plain, invalid, union_arm, role_of, IsSmall, role_of-IsSmall,
}
use binary.Scanner.{
  GoType, GoFields, basic, ptr_to, array_type, slice_type, struct_type, map_type, unsupported,
  end_of_struct, go_field, map_ok, scan_fixed_width, slice_of_elem, found_or, common_map,
  is_pointer, seen_tag, then_seen, add_arm, add_plain, scan_arm, struct_codec, scan_field,
  scan_type, scan_pointee, scan_arms, scan_fields,
}
use binary.Codec.{array_of}
use binary.Scanner.Laws.{
  Ok, Found, map_ok-Ok, found_or-Ok, scan_fixed_width-Found, slice_of_elem-IsCodec,
  common_map-Found,
}

-- The tags of a struct's arms in order, and whether it has plain fields, by its fields' tags.
arm_tags : Role → List ℕ → List ℕ
arm_tags (union_arm id) tags = id ∷ tags
arm_tags left_out tags = tags
arm_tags plain tags = tags
arm_tags invalid tags = tags

unfoldable pub tags_in : GoFields → List ℕ
unfolding arm_tags
tags_in end_of_struct = []
tags_in (go_field f t fs) = arm_tags (role_of f) (tags_in fs)

or_plain : Role → Bool → Bool
or_plain plain b = true
or_plain left_out b = b
or_plain invalid b = b
or_plain (union_arm id) b = b

unfoldable pub plain_in : GoFields → Bool
unfolding or_plain
plain_in end_of_struct = false
plain_in (go_field f t fs) = or_plain (role_of f) (plain_in fs)

-- What the first loop collects behind the tags in `seen`.
abbrev pub Collected : List ℕ → List ℕ → Bool → Bool × Arms → Type 0
Collected seen tags has_plain (p, arms) =
    AreArms arms
    × IsTags (tags_of arms)
    × All (λ t. seen_tag t seen ≡ false) (tags_of arms)
    × (tags_of arms ≡ tags)
    × (p ≡ has_plain)

or_false : (a b : ℕ) (c : Bool) → (a == b || c) ≡ false → (b ≢ a) × (c ≡ false)
or_false a b c h = elim (Bool-cases (a == b)) [
  | inl t ↦ absurd (ground arith)
  | inr f ↦ (λ e. ground arith, ground arith)
]

add_arm-Ok :
    (id : ℕ) (seen tags : List ℕ) (b : Bool) (elem : Result Codec) (rest : Result (Bool × Arms))
    → (0 < id) × (id < 256)
    → seen_tag id seen ≡ false
    → Ok IsCodec elem
    → Ok (Collected (id ∷ seen) tags b) rest
    → Ok (Collected seen (id ∷ tags) b) (add_arm id elem rest)
unfolding add_arm seen_tag
add_arm-Ok id seen tags b (ok c) (ok (p, arms)) small new h (known, distinct, unseen, same, flag) =
    (
      (h, known),
      (
        small.0,
        small.1,
        All-map _ _ (tags_of arms) (λ t e. (or_false id t _ e).0) unseen,
        distinct,
      ),
      (new, All-map _ _ (tags_of arms) (λ t e. (or_false id t _ e).1) unseen),
      ap (λ ts. id ∷ ts) same,
      flag,
    )
add_arm-Ok id seen tags b (ok c) (err x) small new h g = tt
add_arm-Ok id seen tags b (ok c) panic small new h g = g
add_arm-Ok id seen tags b (err x) rest small new h g = tt
add_arm-Ok id seen tags b panic rest small new h g = h

add_plain-Ok :
    (seen tags : List ℕ) (b : Bool) (rest : Result (Bool × Arms))
    → Ok (Collected seen tags b) rest
    → Ok (Collected seen tags true) (add_plain rest)
unfolding add_plain
add_plain-Ok seen tags b (ok (p, arms)) (known, distinct, unseen, same, flag) =
    (known, distinct, unseen, same, refl)
add_plain-Ok seen tags b (err x) h = tt
add_plain-Ok seen tags b panic h = h

scan_arm-Ok :
    (role : Role) (seen tags : List ℕ) (b : Bool) (t : GoType) (elem : Result Codec)
    (rest : Result (Bool × Arms))
    → IsSmall role
    → Ok IsCodec elem
    → Ok (Collected (then_seen role seen) tags b) rest
    → Ok (Collected seen (arm_tags role tags) (or_plain role b)) (scan_arm role seen t elem rest)
unfolding then_seen arm_tags or_plain scan_arm
scan_arm-Ok left_out seen tags b t elem rest s h g = g
scan_arm-Ok plain seen tags b t elem rest s h g = add_plain-Ok seen tags b rest g
scan_arm-Ok invalid seen tags b t elem rest s h g = tt
scan_arm-Ok (union_arm id) seen tags b t elem rest s h g = elim (Bool-cases (is_pointer t)) [
  | inl ptr ↦ rw ptr (elim (Bool-cases (seen_tag id seen)) [
    | inl twice ↦ rw twice tt
    | inr new ↦ rw new (add_arm-Ok id seen tags b elem rest s new h g)
  ])
  | inr other ↦ rw other tt
]

struct_codec-Ok :
    (seen tags : List ℕ) (b : Bool) (arms : Result (Bool × Arms)) (fields : Result Fields)
    → Ok (Collected seen tags b) arms
    → Ok AreFields fields
    → Ok (λ c. IsCodec c) (struct_codec arms fields)
unfolding struct_codec
struct_codec-Ok seen tags b (ok (p, no_arms)) fields h g =
    map_ok-Ok AreFields IsCodec struct fields (λ fs k. k) g
struct_codec-Ok seen tags b (ok (true, arm id c arms)) fields h g = tt
struct_codec-Ok seen tags b (ok (false, arm id c arms)) fields (known, distinct, unseen, same, flag)
      g =
    (distinct, known)
struct_codec-Ok seen tags b (err x) fields h g = tt
struct_codec-Ok seen tags b panic fields h g = h

scan_field-Ok :
    (role : Role) (c : Result Codec) (fields : Result Fields)
    → Ok IsCodec c
    → Ok AreFields fields
    → Ok AreFields (scan_field role c fields)
unfolding scan_field
scan_field-Ok left_out c fields h g = map_ok-Ok AreFields AreFields skipped fields (λ fs k. k) g
scan_field-Ok plain (ok c) fields h g =
    map_ok-Ok AreFields AreFields (field c) fields (λ fs k. (h, k)) g
scan_field-Ok plain (err x) fields h g = tt
scan_field-Ok plain panic fields h g = h
scan_field-Ok invalid (ok c) fields h g =
    map_ok-Ok AreFields AreFields (field c) fields (λ fs k. (h, k)) g
scan_field-Ok invalid (err x) fields h g = tt
scan_field-Ok invalid panic fields h g = h
scan_field-Ok (union_arm id) (ok c) fields h g =
    map_ok-Ok AreFields AreFields (field c) fields (λ fs k. (h, k)) g
scan_field-Ok (union_arm id) (err x) fields h g = tt
scan_field-Ok (union_arm id) panic fields h g = h

own_or_elem-Ok :
    (own : Option Codec) (f : Codec → Codec) (elem : Result Codec)
    → Found own
    → ((c : Codec) → IsCodec c → IsCodec (f c))
    → Ok IsCodec elem
    → Ok IsCodec (found_or own (map_ok f elem))
own_or_elem-Ok own f elem h g k =
    found_or-Ok own (map_ok f elem) h (map_ok-Ok IsCodec IsCodec f elem g k)

mutual
  unfolding scan_type tags_in plain_in

  scans : (size_of : GoType → ℕ) (t : GoType) → Ok IsCodec (scan_type size_of t)
  scans size_of (basic named b) = tt
  scans size_of (ptr_to t) =
      map_ok-Ok IsCodec IsCodec pointer (scan_type size_of t) (λ c k. k) (scans size_of t)
  scans size_of (array_type n t) =
      own_or_elem-Ok (scan_fixed_width (array_of n) t) (collection (array_of n))
        (scan_type size_of t) (scan_fixed_width-Found (array_of n) t) (λ c h. h) (scans size_of t)
  scans size_of (slice_type named t) =
      own_or_elem-Ok (scan_fixed_width (slice_of (size_of t)) t) (slice_of_elem (size_of t) t)
        (scan_type size_of t) (scan_fixed_width-Found (slice_of (size_of t)) t)
        (slice_of_elem-IsCodec (size_of t) t) (scans size_of t)
  scans size_of (struct_type fs) =
      struct_codec-Ok [] (tags_in fs) (plain_in fs) (scan_arms size_of [] fs)
        (scan_fields size_of fs) (scans_arms size_of [] fs) (scans_fields size_of fs)
  scans size_of (map_type named renamed k t) =
      own_or_elem-Ok (common_map named renamed k t) (map_of k) (scan_type size_of t)
        (common_map-Found named renamed k t) (λ c h. h) (scans size_of t)
  scans size_of unsupported = tt

  scans_pointee : (size_of : GoType → ℕ) (t : GoType) → Ok IsCodec (scan_pointee size_of t)
  scans_pointee size_of (ptr_to t) = scans size_of t
  scans_pointee size_of (basic named b) = tt
  scans_pointee size_of (array_type n t) = tt
  scans_pointee size_of (slice_type named t) = tt
  scans_pointee size_of (struct_type fs) = tt
  scans_pointee size_of (map_type named renamed k t) = tt
  scans_pointee size_of unsupported = tt

  scans_arms :
      (size_of : GoType → ℕ) (seen : List ℕ) (fs : GoFields)
      → Ok (Collected seen (tags_in fs) (plain_in fs)) (scan_arms size_of seen fs)
  scans_arms size_of seen end_of_struct = (tt, tt, tt, refl, refl)
  scans_arms size_of seen (go_field f t fs) =
      scan_arm-Ok (role_of f) seen (tags_in fs) (plain_in fs) t (scan_pointee size_of t)
        (scan_arms size_of (then_seen (role_of f) seen) fs) (role_of-IsSmall f)
        (scans_pointee size_of t) (scans_arms size_of (then_seen (role_of f) seen) fs)

  scans_fields : (size_of : GoType → ℕ) (fs : GoFields) → Ok AreFields (scan_fields size_of fs)
  scans_fields size_of end_of_struct = tt
  scans_fields size_of (go_field f t fs) =
      scan_field-Ok (role_of f) (scan_type size_of t) (scan_fields size_of fs) (scans size_of t)
        (scans_fields size_of fs)

-- What the scan of any type returns, and what the loop over the fields of a struct collects.
pub scan_type-Ok : (size_of : GoType → ℕ) (t : GoType) → Ok IsCodec (scan_type size_of t)
scan_type-Ok size_of t = scans size_of t

pub scan_arms-Ok :
    (size_of : GoType → ℕ) (fs : GoFields)
    → Ok (Collected [] (tags_in fs) (plain_in fs)) (scan_arms size_of [] fs)
scan_arms-Ok size_of fs = scans_arms size_of [] fs
