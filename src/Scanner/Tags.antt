-- ===== src/Scanner/Tags.antt =====
-- scanner.go: the tags of struct fields. A string is its bytes. strings.Cut and strconv.ParseUint are
-- written out as far as they are used.
use binary.Prelude.{
  ℕ, ◌<◌, arith, Bool-cases, inl, inr, ◌+◌, ◌*◌, ◌-◌, ◌^◌, ◌||◌, ◌&&◌, ◌==◌, leb, ltb, Bool, true,
  false, if◌then◌else◌,
}
use binary.Prelude.{List, [], ◌∷◌, Option, none, some}
use binary.Codec.Key.{same_bytes}

-- What is asked of a `reflect.StructField` beside its type: whether its name is "_", whether its PkgPath
-- is not empty, and its tag under `binary`.
pub record GoField : Type 0 where
  pub blank : Bool
  pub unexported : Bool
  pub tag : List ℕ

-- What the first loop of `scanStructCodec` makes of a field.
pub data Role : Type 0 where
  left_out plain invalid : Role
  union_arm : ℕ → Role

-- `strings.Cut(tag, ",")`, where the separator is found.
before : ℕ → Option (List ℕ × List ℕ) → Option (List ℕ × List ℕ)
before c none = none
before c (some (value, option)) = some (c ∷ value, option)

cut : List ℕ → Option (List ℕ × List ℕ)
unfolding before
cut [] = none
cut (c ∷ cs) = let rest = cut cs in if c == 44 then some ([], cs) else before c rest

-- `strconv.ParseUint(value, 10, 64)`
digits : ℕ → List ℕ → Option ℕ
digits n [] = some n
digits n (c ∷ cs) =
    let value = n * 10 + (c - 48) in
    let rest = digits value cs in if leb 48 c && leb c 57 && ltb value (2 ^ 64) then rest else none

parse_uint : List ℕ → Option ℕ
unfolding digits
parse_uint [] = none
parse_uint (c ∷ cs) = digits 0 (c ∷ cs)

abbrev pub max_union_tag : ℕ
max_union_tag = 255

arm_role : Option ℕ → Role
arm_role none = invalid
arm_role (some id) = if id == 0 || ltb max_union_tag id then invalid else union_arm id

-- "union" and "-"
abbrev union_option : List ℕ
union_option = 117 ∷ 110 ∷ 105 ∷ 111 ∷ 110 ∷ []

abbrev dash : List ℕ
dash = 45 ∷ []

tagged_role : Option (List ℕ × List ℕ) → Role
unfolding parse_uint arm_role
tagged_role none = plain
tagged_role (some (value, option)) =
    if same_bytes option union_option then arm_role (parse_uint value) else invalid

unfoldable pub role_of : GoField → Role
unfolding cut tagged_role
role_of f =
    if f.blank || f.unexported || same_bytes f.tag dash then left_out else tagged_role (cut f.tag)

-- The number of an arm is one that the table of tags has room for.
abbrev pub IsSmall : Role → Type 0
IsSmall (union_arm id) = (0 < id) × (id < 256)
IsSmall left_out = Unit {0}
IsSmall plain = Unit {0}
IsSmall invalid = Unit {0}

arm_role-IsSmall : (id : Option ℕ) → IsSmall (arm_role id)
unfolding arm_role
arm_role-IsSmall none = tt
arm_role-IsSmall (some id) = elim (Bool-cases (id == 0 || ltb max_union_tag id)) [
  | inl t ↦ rw t tt
  | inr f ↦ rw f (ground arith)
]

either-IsSmall : (b : Bool) (p q : Role) → IsSmall p → IsSmall q → IsSmall (if b then p else q)
either-IsSmall true p q h g = h
either-IsSmall false p q h g = g

tagged_role-IsSmall : (parts : Option (List ℕ × List ℕ)) → IsSmall (tagged_role parts)
unfolding tagged_role
tagged_role-IsSmall none = tt
tagged_role-IsSmall (some (value, option)) =
    either-IsSmall (same_bytes option union_option) _ invalid (arm_role-IsSmall (parse_uint value))
      tt

pub role_of-IsSmall : (f : GoField) → IsSmall (role_of f)
unfolding role_of
role_of-IsSmall f =
    either-IsSmall (f.blank || f.unexported || same_bytes f.tag dash) left_out _ tt
      (tagged_role-IsSmall (cut f.tag))
