-- ===== src/Codec/Selection.antt =====
-- union.go: the arms that are set, as `findArm` sees them.
use binary.Prelude.{ℕ, ◌≤◌, ◌≡◌, ◌≢◌, refl, arith, length, List, none, some, length-append}
use binary.Varint.Shape.{length-uvarint_bytes}
use binary.Codec.{Arms, no_arms, arm, Opts, no_values}
use binary.Codec.Union.{Choice, no_arm, one_arm, several, find_from, find_arm}
use binary.Codec.Union.Laws.{wire_choice}
use binary.Base.{M, err, multiple_arms}
use binary.Encoder.{Encoder}
use binary.Codec.{union}
use binary.Codec.Union.{encode_choice}
use binary.Codec.Tree.{encode, arm_encoders, arm_bodies}
use binary.Codec.Tree.Fits.{set_arms}

-- Where no arm is set, the search goes through, and the struct is empty.
pub none_set :
    (arms : Arms) (v : Opts arms) (selected : Choice (List ℕ))
    → set_arms arms v ≡ 0
    → (v ≡ no_values arms) × (find_from selected (arm_bodies arms v) ≡ selected)
unfolding arm_bodies find_from
none_set no_arms v selected h = (refl, refl)
none_set (arm tag c arms) (none, vs) selected h =
    let (same, found) = none_set arms vs selected h in (rw same refl, found)
none_set (arm tag c arms) (some v, vs) selected h = absurd (omega arith)

one-several : {c : Choice (List ℕ)} {t : ℕ} {b : List ℕ} → c ≡ one_arm t b → c ≡ several → ⊥
one-several h g = cc

pub find_arm-one :
    (arms : Arms) (v : Opts arms) → set_arms arms v ≤ 1 → find_arm (arm_bodies arms v) ≢ several
unfolding arm_bodies find_arm
find_arm-one no_arms v h = λ e. cc
find_arm-one (arm tag c arms) (none, vs) h = find_arm-one arms vs h
find_arm-one (arm tag c arms) (some v, vs) h =
    λ e. absurd (one-several ((none_set arms vs (one_arm tag _) (omega arith)).1) e)

pub length-wire_choice : (b : Choice (List ℕ)) → b ≢ several → 2 ≤ length (wire_choice b)
unfolding wire_choice
length-wire_choice no_arm h =
    rw (length-append, length-append) (omega (arith, length-uvarint_bytes 0))
length-wire_choice (one_arm t b) h =
    rw (length-append, length-append)
      (omega (arith, length-uvarint_bytes t, length-uvarint_bytes (length b)))
length-wire_choice several h = absurd (h refl)

set_again :
    (arms : Arms) (v : Opts arms) (t : ℕ) (first : M Encoder (Unit {0}))
    → 1 ≤ set_arms arms v
    → find_from (one_arm t first) (arm_encoders arms v) ≡ several
unfolding arm_encoders find_from
set_again no_arms v t first h = absurd (omega arith)
set_again (arm tag c arms) (none, vs) t first h = set_again arms vs t first h
set_again (arm tag c arms) (some v, vs) t first h = refl

find_arm-several :
    (arms : Arms) (v : Opts arms) → 2 ≤ set_arms arms v → find_arm (arm_encoders arms v) ≡ several
unfolding arm_encoders find_arm
find_arm-several no_arms v h = absurd (omega arith)
find_arm-several (arm tag c arms) (none, vs) h = find_arm-several arms vs h
find_arm-several (arm tag c arms) (some v, vs) h = set_again arms vs tag _ (omega arith)

-- EncodeTo of a union of which two arms or more are set returns the error for that and leaves the
-- encoder as it was.
pub encode-several :
    (arms : Arms) (v : Opts arms) (e : Encoder)
    → 2 ≤ set_arms arms v
    → encode (union arms) v e ≡ (err multiple_arms, e)
unfolding encode encode_choice
encode-several arms v e h = rw (find_arm-several arms v h)
