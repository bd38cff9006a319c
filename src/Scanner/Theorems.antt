-- ===== src/Scanner/Theorems.antt =====
-- What the scan of a type promises to the callers of the codec.
use binary.Prelude.{ℕ, ◌≡◌, ◌≢◌, refl, sym, ◌∙◌, Bool, true, false, List, [], ◌++◌}
use binary.Base.{Error, Result, ok, err, panic, mixed_fields}
use binary.Codec.{Codec, Val, Fields, struct, union, Arms, no_arms, arm}
use binary.Codec.Tree.{tags_of}
use binary.Codec.Tree.Fits.{Fits, IsCodec}
use binary.Codec.Union.Laws.{IsTags}
use binary.Marshal.{marshal, unmarshal}
use binary.Marshal.Laws.{unmarshal-marshal}
use binary.Scanner.{
  GoType, GoFields, struct_type, scan_type, scan_arms, scan_fields, struct_codec, map_ok,
}
use binary.Scanner.Laws.{Ok}
use binary.Scanner.Structs.{tags_in, plain_in, Collected, scan_type-Ok, scan_arms-Ok}

from_Ok : {A : Type 0} (P : A → Type 0) (r : Result A) (a : A) → Ok P r → r ≡ ok a → P a
from_Ok P (ok b) a h e = let same : b ≡ a = cc in rw (← same) h
from_Ok P (err x) a h e = cc
from_Ok P panic a h e = cc

false-true : false ≡ true → ⊥
false-true e = cc

-- A codec that a type is scanned to is one that the theorems on codecs are about: at any depth, the tags
-- of a union are numbers from 1 to 255 of which no two are the same, and no slice of bytes is taken for a
-- slice of varints.
pub scan_type-IsCodec :
    (size_of : GoType → ℕ) (t : GoType) (c : Codec) → scan_type size_of t ≡ ok c → IsCodec c
scan_type-IsCodec size_of t c e = from_Ok IsCodec (scan_type size_of t) c (scan_type-Ok size_of t) e

-- For every type that the scan takes and every value of it, Marshal with the codec that was found
-- succeeds, and Unmarshal of its output, with any bytes behind it, gives the value back.
scan_type-roundtrip :
    (size_of : GoType → ℕ) (t : GoType) (c : Codec) (v : Val c) (rest : List ℕ)
    → scan_type size_of t ≡ ok c
    → Fits c v
    → (output : List ℕ) × (marshal c v ≡ ok output) × (unmarshal c (output ++ rest) ≡ ok v)
scan_type-roundtrip size_of t c v rest e fits =
    unmarshal-marshal c v (scan_type-IsCodec size_of t c e) fits rest

not_union : (fields : Result Fields) (arms : Arms) → map_ok struct fields ≡ ok (union arms) → ⊥
unfolding map_ok
not_union (ok fs) arms e = cc
not_union (err x) arms e = cc
not_union panic arms e = cc

struct_codec-union :
    (tags : List ℕ) (b : Bool) (found : Result (Bool × Arms)) (fields : Result Fields) (arms : Arms)
    → Ok (Collected [] tags b) found
    → struct_codec found fields ≡ ok (union arms)
    → IsTags (tags_of arms) × (tags_of arms ≡ tags) × (b ≡ false)
unfolding struct_codec
struct_codec-union tags b (ok (p, no_arms)) fields arms h e = absurd (not_union fields arms e)
struct_codec-union tags b (ok (true, arm id c more)) fields arms h e = cc
struct_codec-union tags b (ok (false, arm id c more)) fields arms
      (known, distinct, unseen, same, flag) e =
    let these : arm id c more ≡ arms = cc in rw (← these) (distinct, same, sym flag)
struct_codec-union tags b (err x) fields arms h e = cc
struct_codec-union tags b panic fields arms h e = absurd h

-- A struct that is scanned to a union has an arm for each field with a union tag, in the order of the
-- fields and under the numbers of those tags, of which no two are the same, and no plain field.
scan_struct-union :
    (size_of : GoType → ℕ) (fs : GoFields) (arms : Arms)
    → scan_type size_of (struct_type fs) ≡ ok (union arms)
    → IsTags (tags_of arms) × (tags_of arms ≡ tags_in fs) × (plain_in fs ≡ false)
unfolding scan_type
scan_struct-union size_of fs arms e =
    struct_codec-union (tags_in fs) (plain_in fs) (scan_arms size_of [] fs) (scan_fields size_of fs)
      arms (scan_arms-Ok size_of fs) e

struct_codec-mixed :
    (tags : List ℕ) (b : Bool) (found : Result (Bool × Arms)) (fields : Result Fields)
    → Ok (Collected [] tags b) found
    → b ≡ true
    → tags ≢ []
    → (x : Error) × (struct_codec found fields ≡ err x)
unfolding struct_codec
struct_codec-mixed tags b (ok (p, no_arms)) fields (known, distinct, unseen, same, flag) h g =
    absurd (g (sym same))
struct_codec-mixed tags b (ok (true, arm id c more)) fields k h g = (mixed_fields, refl)
struct_codec-mixed tags b (ok (false, arm id c more)) fields (known, distinct, unseen, same, flag) h
      g =
    absurd (false-true (flag ∙ h))
struct_codec-mixed tags b (err x) fields k h g = (x, refl)
struct_codec-mixed tags b panic fields k h g = absurd k

-- A struct with a field that has a union tag and another that has none is refused with an error.
scan_struct-mixed :
    (size_of : GoType → ℕ) (fs : GoFields)
    → plain_in fs ≡ true
    → tags_in fs ≢ []
    → (x : Error) × (scan_type size_of (struct_type fs) ≡ err x)
unfolding scan_type
scan_struct-mixed size_of fs h g =
    struct_codec-mixed (tags_in fs) (plain_in fs) (scan_arms size_of [] fs) (scan_fields size_of fs)
      (scan_arms-Ok size_of fs) h g
