-- ===== src/Sorted/Order.antt =====
-- sorted/codecs.go: the sort before encoding, and isSorted.
use binary.Prelude.{ℕ, suc, length, ◌≡◌, refl, arith, All, leb, Bool, true}
use binary.Prelude.{List, [], ◌∷◌, Bool-cases, inl, inr}
use mathlib.Core.List.{Perm}
use mathlib.Core.List.Perm
use binary.Sorted.{insert, sort, is_sorted}

module _ {T : Type 0} (le : T → T → Bool) where
  insert-Perm : (x : T) (xs : List T) → Perm (insert le x xs) (x ∷ xs)
  unfolding insert
  insert-Perm x [] = Perm.refl (x ∷ [])
  insert-Perm x (y ∷ ys) = elim (Bool-cases (le x y)) [
    | inl h ↦ rw h (Perm.refl (x ∷ (y ∷ ys)))
    | inr h ↦ rw h (Perm.trans (Perm.cons y (insert-Perm x ys)) (Perm.swap x y ys))
  ]

  -- Sorting keeps the elements, each as often as it is there.
  pub sort-Perm : (xs : List T) → Perm (sort le xs) xs
  unfolding sort
  sort-Perm [] = Perm.nil
  sort-Perm (x ∷ xs) = Perm.trans (insert-Perm x (sort le xs)) (Perm.cons x (sort-Perm xs))

  insert-All : (P : T → Type 0) (x : T) (xs : List T) → P x → All P xs → All P (insert le x xs)
  unfolding insert
  insert-All P x [] h g = (h, tt)
  insert-All P x (y ∷ ys) h g = elim (Bool-cases (le x y)) [
    | inl e ↦ rw e (h, g)
    | inr e ↦ rw e (g.0, insert-All P x ys h g.1)
  ]

  pub sort-All : (P : T → Type 0) (xs : List T) → All P xs → All P (sort le xs)
  unfolding sort
  sort-All P [] h = tt
  sort-All P (x ∷ xs) h = insert-All P x (sort le xs) h.0 (sort-All P xs h.1)

module _ {T : Type 0} (le : T → T → Bool) where
  length-insert : (x : T) (xs : List T) → length (insert le x xs) ≡ suc (length xs)
  unfolding insert
  length-insert x [] = refl
  length-insert x (y ∷ ys) = ground (arith, length-insert x ys)

  pub length-sort : (xs : List T) → length (sort le xs) ≡ length xs
  unfolding sort
  length-sort [] = refl
  length-sort (x ∷ xs) = rw (length-insert x (sort le xs), length-sort xs)

insert-is_sorted : (x : ℕ) (xs : List ℕ) → is_sorted xs ≡ true → is_sorted (insert leb x xs) ≡ true
unfolding is_sorted insert
insert-is_sorted x [] h = refl
insert-is_sorted x (y ∷ []) h = ground arith
insert-is_sorted x (y ∷ (z ∷ zs)) h = ground (arith, insert-is_sorted x (z ∷ zs))

-- For every slice of unsigned numbers, isSorted accepts what the sort leaves, which has the
-- elements of the slice, each as often as it was there.
pub sort-is_sorted : (xs : List ℕ) → (is_sorted (sort leb xs) ≡ true) × Perm (sort leb xs) xs
unfolding sort
sort-is_sorted [] = (unfold is_sorted in refl, Perm.nil)
sort-is_sorted (x ∷ xs) =
    (insert-is_sorted x (sort leb xs) (sort-is_sorted xs).0, sort-Perm leb (x ∷ xs))
