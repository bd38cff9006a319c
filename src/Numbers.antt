-- ===== src/Numbers.antt =====
-- nocopy/types.go, unsafe/types.go and sorted/types.go: the slices of numbers that the three packages
-- declare alike, with what sort.Interface asks of them. A number is the pattern of its bits.
use binary.Prelude.{
  ℕ, zero, suc, ◌<◌, ◌≡◌, ◌≢◌, refl, ap, arith, length, get_elem?, ltb, List, [], ◌∷◌, Bool, false,
  not, none, some,
}
use mathlib.Core.Path.{subst}
use binary.Prelude.{sym, ◌∙◌, ◌==◌, Bool-cases, inl, inr}
use binary.Prelude.Int.{signed}
use binary.Base.{Result, ok, panic}
use binary.Sorted.{leb_int}

pub data Numbers : Type 0 where
  uint16s int16s uint32s int32s uint64s int64s float32s float64s : Numbers

-- The size that `GetBinaryCodec` gives to the codec of each type.
pub elem_size : Numbers → ℕ
elem_size uint16s = 2
elem_size int16s = 2
elem_size uint32s = 4
elem_size int32s = 4
elem_size uint64s = 8
elem_size int64s = 8
elem_size float32s = 4
elem_size float64s = 8

-- `s[i]`
at : List ℕ → ℕ → Result ℕ
at s i = elim (get_elem? s i) [ none ↦ panic | some x ↦ ok x ]

both : {B : Type 0} → Result ℕ → Result ℕ → (ℕ → ℕ → B) → Result B
both (ok x) (ok y) f = ok (f x y)
both (ok x) other f = panic
both other y f = panic

-- The comparison of floats is the machine's, by the size and the patterns of the two.
module _ (float_less : ℕ → ℕ → ℕ → Bool) where
  less_than : Numbers → ℕ → ℕ → Bool
  less_than uint16s x y = ltb x y
  less_than uint32s x y = ltb x y
  less_than uint64s x y = ltb x y
  less_than int16s x y = not (leb_int (signed 16 y) (signed 16 x))
  less_than int32s x y = not (leb_int (signed 32 y) (signed 32 x))
  less_than int64s x y = not (leb_int (signed 64 y) (signed 64 x))
  less_than float32s x y = float_less 4 x y
  less_than float64s x y = float_less 8 x y

  -- `Less`
  pub less : Numbers → List ℕ → ℕ → ℕ → Result Bool
  unfolding both less_than at
  less t s i j = both (at s i) (at s j) (less_than t)

-- `s[i] = v` where there is such an element.
set : List ℕ → ℕ → ℕ → List ℕ
set [] i v = []
set (x ∷ s) zero v = v ∷ s
set (x ∷ s) (suc i) v = x ∷ set s i v

-- `Swap`
pub swap : List ℕ → ℕ → ℕ → Result (List ℕ)
unfolding both set at
swap s i j = both (at s i) (at s j) (λ x y. set (set s i y) j x)

length-set : (s : List ℕ) (i v : ℕ) → length (set s i v) ≡ length s
unfolding set
length-set [] i v = refl
length-set (x ∷ s) zero v = refl
length-set (x ∷ s) (suc i) v = ap suc (length-set s i v)

get-set_self : (s : List ℕ) (i v : ℕ) → i < length s → get_elem? (set s i v) i ≡ some v
unfolding set
get-set_self [] i v h = absurd (omega arith)
get-set_self (x ∷ s) zero v h = refl
get-set_self (x ∷ s) (suc i) v h = get-set_self s i v (omega arith)

get-set_ne : (s : List ℕ) (i k v : ℕ) → k ≢ i → get_elem? (set s i v) k ≡ get_elem? s k
unfolding set
get-set_ne [] i k v h = refl
get-set_ne (x ∷ s) zero zero v h = absurd (h refl)
get-set_ne (x ∷ s) zero (suc k) v h = refl
get-set_ne (x ∷ s) (suc i) zero v h = refl
get-set_ne (x ∷ s) (suc i) (suc k) v h = get-set_ne s i k v (λ e. h (ap suc e))

get-inside : (s : List ℕ) (i x : ℕ) → get_elem? s i ≡ some x → i < length s
get-inside [] i x h = cc
get-inside (y ∷ s) zero x h = omega arith
get-inside (y ∷ s) (suc i) x h = omega (arith, get-inside s i x h)

not_same : (i j : ℕ) → (i == j) ≡ false → i ≢ j
not_same i j h e = ground arith

at-some : (s : List ℕ) (i x : ℕ) → get_elem? s i ≡ some x → at s i ≡ ok x
unfolding at
at-some s i x h = rw (at, h)

-- The numbers at the two places of a swap, which may be one.
get-swapped :
    (s : List ℕ) (i j x y : ℕ)
    → get_elem? s i ≡ some x
    → get_elem? s j ≡ some y
    → (get_elem? (set (set s i y) j x) i ≡ some y) × (get_elem? (set (set s i y) j x) j ≡ some x)
get-swapped s i j x y h g = (first, get-set_self (set s i y) j x inside)
  where
    inside : j < length (set s i y)
    inside = rw (length-set s i y) (get-inside s j y g)

    here : i < length s
    here = get-inside s i x h

    first : get_elem? (set (set s i y) j x) i ≡ some y
    first = elim (Bool-cases (i == j)) [
      | inl e ↦
          let same : i ≡ j = ground arith in
          subst (λ k. get_elem? (set (set s i y) k x) i ≡ some y) same
            (get-set_self (set s i y) i x (rw (length-set s i y) here)
              ∙ sym h
              ∙ ap (get_elem? s) same
              ∙ g)
      | inr e ↦
          get-set_ne (set s i y) j i x (λ same. absurd (not_same i j e same))
          ∙ get-set_self s i y here
    ]

-- Swap of two places of a slice, the same one twice included, does not panic: it leaves a slice of the same
-- length in which the two numbers have changed places, and the number at any other place has stayed.
pub swap_lem :
    (s : List ℕ) (i j x y k : ℕ)
    → get_elem? s i ≡ some x
    → get_elem? s j ≡ some y
    → k ≢ i
    → k ≢ j
    → (s' : List ℕ) × (swap s i j ≡ ok s')
      × (length s' ≡ length s)
      × (get_elem? s' i ≡ some y)
      × (get_elem? s' j ≡ some x)
      × (get_elem? s' k ≡ get_elem? s k)
unfolding swap both
swap_lem s i j x y k h g other other' =
    let swapped = get-swapped s i j x y h g in
    (
      set (set s i y) j x,
      rw (at-some s i x h, at-some s j y g),
      length-set (set s i y) j x ∙ length-set s i y,
      swapped.0,
      swapped.1,
      get-set_ne (set s i y) j k x other' ∙ get-set_ne s i k y other,
    )
