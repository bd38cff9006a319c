-- ===== src/Sorted/Counters/Pairs.antt =====
-- sorted/counters.go and sorted/timeseries.go: the pairs that two slices of the same length stand for.
use binary.Prelude.{
  ℕ, zero, suc, ◌≡◌, refl, arith, length, get_elem?, none, some, List, [], ◌∷◌, ◌⊎◌, inl, inr,
}
use mathlib.Core.List.{Perm}
use mathlib.Core.List.Perm
use binary.Sorted.Counters.{put_at, exchange}

abbrev pub pairs : List ℕ → List ℕ → List (ℕ × ℕ)
pairs [] ys = []
pairs (x ∷ xs) [] = []
pairs (x ∷ xs) (y ∷ ys) = (x, y) ∷ pairs xs ys

-- What stands at a place of two slices of the same length.
at_place :
    (i : ℕ) (xs ys : List ℕ)
    → length xs ≡ length ys
    → ((get_elem? xs i ≡ none) × (get_elem? ys i ≡ none))
      ⊎ ((x : ℕ) × (y : ℕ) × (get_elem? xs i ≡ some x) × (get_elem? ys i ≡ some y))
at_place i [] [] h = inl (refl, refl)
at_place i [] (y ∷ ys) h = absurd (omega arith)
at_place i (x ∷ xs) [] h = absurd (omega arith)
at_place zero (x ∷ xs) (y ∷ ys) h = inr (x, y, refl, refl)
at_place (suc i) (x ∷ xs) (y ∷ ys) h = at_place i xs ys (omega arith)

get_elem?-put_at :
    (i j x : ℕ) (xs : List ℕ) → get_elem? xs j ≡ some x → get_elem? (put_at i x xs) j ≡ some x
unfolding put_at
get_elem?-put_at i j x [] h = h
get_elem?-put_at zero zero x (y ∷ ys) h = refl
get_elem?-put_at zero (suc j) x (y ∷ ys) h = h
get_elem?-put_at (suc i) zero x (y ∷ ys) h = h
get_elem?-put_at (suc i) (suc j) x (y ∷ ys) h = get_elem?-put_at i j x ys h

-- A pair that is put at a place trades itself for the one that was there.
put_at-Perm :
    (i x y x' y' : ℕ) (xs ys : List ℕ)
    → get_elem? xs i ≡ some x'
    → get_elem? ys i ≡ some y'
    → Perm ((x', y') ∷ pairs (put_at i x xs) (put_at i y ys)) ((x, y) ∷ pairs xs ys)
unfolding put_at
put_at-Perm i x y x' y' [] ys h g = cc
put_at-Perm i x y x' y' (a ∷ rest) [] h g = cc
put_at-Perm zero x y x' y' (a ∷ rest) (b ∷ bs) h g =
    let first : a ≡ x' = cc in
    let second : b ≡ y' = cc in rw (first, second) (Perm.swap (x, y) (x', y') (pairs rest bs))
put_at-Perm (suc i) x y x' y' (a ∷ rest) (b ∷ bs) h g = Perm.trans (Perm.swap (a, b) (x', y') _) (
    Perm.trans (Perm.cons (a, b) (put_at-Perm i x y x' y' rest bs h g)) (Perm.swap (x, y) (a, b) _))

-- Two slices in which the same two places are exchanged stand for the same pairs.
pub exchange-Perm :
    (i j : ℕ) (xs ys : List ℕ)
    → length xs ≡ length ys
    → Perm
        (pairs
          (exchange (get_elem? xs i) (get_elem? xs j) i j xs)
          (exchange (get_elem? ys i) (get_elem? ys j) i j ys))
        (pairs xs ys)
unfolding exchange
exchange-Perm i j xs ys h = elim (at_place i xs ys h) [
  | inl out ↦ rw (out.0, out.1) (Perm.refl (pairs xs ys))
  | inr (x, y, hx, hy) ↦ elim (at_place j xs ys h) [
    | inl out ↦ rw (hx, hy, out.0, out.1) (Perm.refl (pairs xs ys))
    | inr (x', y', hx', hy') ↦
        rw (hx, hy, hx', hy')
          (Perm.cons_inv (
            Perm.trans
              (put_at-Perm j x y x' y' (put_at i x' xs) (put_at i y' ys)
                (get_elem?-put_at i j x' xs hx') (get_elem?-put_at i j y' ys hy'))
              (put_at-Perm i x' y' x y xs ys hx hy)))
  ]
]
