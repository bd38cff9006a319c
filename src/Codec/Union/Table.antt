-- ===== src/Codec/Union/Table.antt =====
-- The table of tags against a search through the arms, and a tag that no arm has.
use binary.Prelude.{
  ℕ, suc, ◌/◌, ◌≤◌, ◌<◌, ◌^◌, ◌≡◌, ◌≢◌, ◌⊎◌, inl, inr, refl, sym, ◌∙◌, arith, length, All, ◌==◌,
  get_elem?,
}
use binary.Prelude.{List, [], ◌∷◌, ◌++◌, false, Option, none, some, if◌then◌else◌, Bool-cases}
use binary.Base.{Result, ok}
use binary.Varint.{uvarint_bytes}
use binary.Stream.{max_int}
use binary.Decoder.Laws.{Origin, holding, read_tagged-holding}
use binary.Codec.Union.{lookup, decode_union}
use binary.Codec.Union.Laws.{IsTags, lookup-none, lookup-get_elem?}

abbrev pub later : Option ℕ → Option ℕ
later none = none
later (some i) = some (suc i)

-- The first arm with the tag.
unfoldable pub place : List ℕ → ℕ → Option ℕ
place [] t = none
place (tag ∷ tags) t = let rest = place tags t in if tag == t then some 0 else later rest

abbrev Found : List ℕ → ℕ → Type 0
Found tags t =
    ((k : ℕ) × (place tags t ≡ some k) × (get_elem? tags k ≡ some t))
    ⊎ ((place tags t ≡ none) × All (λ u. u ≢ t) tags)

not_same : (a b : ℕ) → (a == b) ≡ false → a ≡ b → ⊥
not_same a b h e = ground arith

Found-suc :
    (tag : ℕ) (tags : List ℕ) (t : ℕ) → (tag == t) ≡ false → Found tags t → Found (tag ∷ tags) t
unfolding place
Found-suc tag tags t h (inl (k, at, found)) = inl (suc k, rw (h, at), found)
Found-suc tag tags t h (inr (none_at, others)) = inr (rw (h, none_at), (not_same tag t h, others))

place-cases : (tags : List ℕ) (t : ℕ) → Found tags t
unfolding place
place-cases [] t = inr (refl, tt)
place-cases (tag ∷ tags) t = elim (Bool-cases (tag == t)) [
  | inl same ↦ inl (0, rw same refl, ground arith)
  | inr other ↦ Found-suc tag tags t other (place-cases tags t)
]

-- On tags of which no two are the same, the table of newUnionCodec gives for every number the place of
-- the arm that has it as its tag, and nothing where none has, as a search through the arms does.
pub lookup-place : (tags : List ℕ) (t : ℕ) → IsTags tags → lookup tags t ≡ place tags t
lookup-place tags t h = elim (place-cases tags t) [
  | inl found ↦ lookup-get_elem? tags found.0 t h found.2 ∙ sym found.1
  | inr missing ↦ lookup-none tags t missing.1 ∙ sym missing.0
]

-- A body under a tag that no arm has is read and left aside: DecodeTo returns the union with no arm set,
-- in memory and from a stream, and stops right behind the body.
decode_union-unknown :
    {E : Type 0} (tags : List ℕ) (empty : E) (decode_arm : ℕ → List ℕ → Result E) (t : ℕ)
    (body : List ℕ)
    → All (λ u. u ≢ t) tags
    → t < 2 ^ 64
    → length body ≤ max_int / 2
    → (k : Origin) (front rest : List ℕ)
    → (let bytes : List ℕ = uvarint_bytes t ++ (uvarint_bytes (length body) ++ body) in
        decode_union tags empty decode_arm (holding k front (bytes ++ rest))
        ≡ (ok empty, holding k (front ++ bytes) rest))
unfolding decode_union
decode_union-unknown tags empty decode_arm t body h small fits k front rest =
    rw (read_tagged-holding k t body front rest small fits, lookup-none tags t h)
