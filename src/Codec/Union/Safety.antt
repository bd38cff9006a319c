-- ===== src/Codec/Union/Safety.antt =====
-- The union codec on any input: a tag leads to an arm that there is.
use binary.Prelude.{
  ℕ, suc, ◌<◌, ◌≡◌, ◌≢◌, sym, ◌∙◌, length, List, [], ◌∷◌, Option, none, some, ◌==◌, Bool-cases, inl,
  inr, refl, arith,
}
use binary.Base.{Result, panic}
use binary.Decoder.Safety.{Safe, bind-Safe, value-Safe}
use binary.Decoder.Safety.Calls.{read_tagged-Safe}
use binary.Codec.Union.{lookup, decode_union, arm_at}
use binary.Codec.Union.Laws.{IsTags}
use binary.Codec.Union.Table.{place, later, lookup-place}

later-lt : (o : Option ℕ) (n i : ℕ) → ((k : ℕ) → o ≡ some k → k < n) → later o ≡ some i → i < suc n
later-lt none n i h e = cc
later-lt (some k) n i h e = ground (arith, h k refl)

place-lt : (tags : List ℕ) (t i : ℕ) → place tags t ≡ some i → i < length tags
unfolding place
place-lt [] t i h = cc
place-lt (tag ∷ tags) t i h = elim (Bool-cases (tag == t)) [
  | inl same ↦ let e = rw same at h in ground arith
  | inr other ↦ later-lt (place tags t) (length tags) i (place-lt tags t) (rw other at h)
]

module _ {E : Type 0} (tags : List ℕ) (empty : E) (decode_arm : ℕ → List ℕ → Result E) where
  arm_at-returns :
      ((i : ℕ) (body : List ℕ) → i < length tags → decode_arm i body ≢ panic)
      → (o : Option ℕ) (body : List ℕ) → ((i : ℕ) → o ≡ some i → i < length tags)
      → arm_at tags empty decode_arm o body ≢ panic
  unfolding arm_at
  arm_at-returns h none body g = λ p. cc
  arm_at-returns h (some i) body g = h i body (g i refl)

  -- Arms that do not panic make a union that does not.
  pub decode_union-Safe :
      IsTags tags
      → ((i : ℕ) (body : List ℕ) → i < length tags → decode_arm i body ≢ panic)
      → Safe (decode_union tags empty decode_arm)
  unfolding decode_union
  decode_union-Safe known h = bind-Safe read_tagged-Safe λ tagged.
      value-Safe (arm_at tags empty decode_arm (lookup tags tagged.0) tagged.1) (
        arm_at-returns h (lookup tags tagged.0) tagged.1
          (λ i e. place-lt tags tagged.0 i (sym (lookup-place tags tagged.0 known) ∙ e)))
