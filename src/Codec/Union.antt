-- ===== src/Codec/Union.antt =====
-- union.go: a struct of pointers of which one is set at most. The arms come in the order of the fields;
-- whether the struct has an address or not, the same arms are looked at in the same order. What an arm
-- is encoded with, or the bytes that it is encoded to, is the type `A` of what is set.
pub mod Safety
pub mod Laws
pub mod Table
use binary.Prelude.{ℕ, zero, suc, ◌+◌, leb, ltb, length, if◌then◌else◌, get_elem?, replicate}
use binary.Prelude.{List, [], ◌∷◌, ◌++◌, Option, none, some}
use binary.Base.{Error, multiple_arms, Result, ok, err, panic, M, ◌>>=◌, ◌>>◌, pure, next, fail}
use binary.Varint.{uvarint_bytes}
use binary.Encoder.{Encoder, buffer, contents, write_tagged, new_encoder}
use binary.Decoder.{Decoder, read_tagged}
use binary.Codec.Delivery.{finish, kept}

-- What `findArm` returns: no arm, an arm by its tag, or `&errArm`.
pub data Choice {ℓ} (A : Type ℓ) : Type ℓ where
  no_arm several : Choice A
  one_arm : ℕ → A → Choice A

module _ {ℓ} {A : Type ℓ} where
  -- The loop of `findArmUnsafe` and `findArmReflect`, with `selected` so far.
  unfoldable pub find_from : Choice A → List (ℕ × Option A) → Choice A
  find_from selected [] = selected
  find_from selected ((tag, none) ∷ arms) = find_from selected arms
  find_from no_arm ((tag, some a) ∷ arms) = find_from (one_arm tag a) arms
  find_from (one_arm t b) ((tag, some a) ∷ arms) = several
  find_from several ((tag, some a) ∷ arms) = several

  unfoldable pub find_arm : List (ℕ × Option A) → Choice A
  unfolding find_from
  find_arm arms = find_from no_arm arms

-- `e.WriteTagged(selected.tag, state.Bytes()); return e.err`, after the arm has been encoded to a
-- buffer of its own.
write_arm : ℕ → Result (Unit {0}) × Encoder → M Encoder (Unit {0})
unfolding contents
write_arm tag (ok u, state) e = kept (write_tagged tag (contents state.out) e)
write_arm tag (err x, state) e = (err x, e)
write_arm tag (panic, state) e = (panic, e)

-- `EncodeTo` with the arm that was found.
unfoldable pub encode_choice : Choice (M Encoder (Unit {0})) → M Encoder (Unit {0})
unfolding write_arm
encode_choice no_arm e = kept (write_tagged 0 [] e)
encode_choice several e = (err multiple_arms, e)
encode_choice (one_arm tag encode) e = write_arm tag (finish encode (new_encoder (buffer []))) e

-- `newUnionCodec`: the table from tags to arms, of `max_tag` + 1 entries. A tag that comes twice would
-- go to the last of its arms; the scanner lets none through.
set_at : ℕ → ℕ → List (Option ℕ) → List (Option ℕ)
set_at n i [] = []
set_at zero i (x ∷ table) = some i ∷ table
set_at (suc n) i (x ∷ table) = x ∷ set_at n i table

fill : ℕ → List ℕ → List (Option ℕ) → List (Option ℕ)
unfolding set_at
fill i [] table = table
fill i (tag ∷ tags) table = fill (i + 1) tags (set_at tag i table)

-- `maxTag` of `scanStructCodec`.
pub max_tag : List ℕ → ℕ
max_tag [] = 0
max_tag (tag ∷ tags) = let rest = max_tag tags in if ltb rest tag then tag else rest

pub by_tag : List ℕ → List (Option ℕ)
unfolding fill max_tag
by_tag tags = fill 0 tags (replicate (suc (max_tag tags)) none)

entry_of : Option (Option ℕ) → Option ℕ
entry_of none = none
entry_of (some entry) = entry

-- `lookup`: the arm with a tag, by its place.
pub lookup : List ℕ → ℕ → Option ℕ
unfolding by_tag entry_of
lookup tags tag = entry_of (get_elem? (by_tag tags) tag)

-- `DecodeTo` over a struct whose arms have `tags`. The body of an arm is decoded by a reader of its own
-- (in memory, the decoder's own reader, put back afterwards), whatever is left of it; a tag that is not
-- known leaves every arm empty.
module _ {E : Type 0} (tags : List ℕ) (empty : E) (decode_arm : ℕ → List ℕ → Result E) where
  arm_at : Option ℕ → List ℕ → Result E
  arm_at none body = ok empty
  arm_at (some i) body = decode_arm i body

  pub decode_union : M Decoder E
  unfolding arm_at
  decode_union = do (tag, body) ← read_tagged; λ d. (arm_at (lookup tags tag) body, d)
