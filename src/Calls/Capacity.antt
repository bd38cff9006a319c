-- ===== src/Calls/Capacity.antt =====
-- encoder.go: `marshalCapacity`, the room that `Encode` makes for an array or a slice.
use binary.Prelude.{
  ℕ, ◌*◌, ◌/◌, ◌^◌, ◌≤◌, ltb, leb, ◌==◌, ◌||◌, if◌then◌else◌, arith, ◌<◌, ◌≡◌, false, Bool-cases,
  inl, inr,
}
use native.Mathlib.Nat.{le-div_iff_mul-le}

-- The kind of the value, as far as it matters: an array, a slice by the size of its elements and its
-- length, or a value of another kind that has a length.
pub data Sized : Type 0 where
  sized_array : Sized
  sized_slice : ℕ → ℕ → Sized
  sized_other : ℕ → Sized

abbrev limit : ℕ
limit = 2 ^ 20

max : ℕ → ℕ → ℕ
max a b = if ltb a b then b else a

of_elements : ℕ → ℕ → ℕ
unfolding max
of_elements size n =
    if size == 0 || ltb limit size || ltb (limit / size) n then 64 else max 64 (n * size)

-- `size` is the size of the value's type.
pub marshal_capacity : ℕ → Sized → ℕ
unfolding of_elements
marshal_capacity size sized_array = if leb size limit then max 64 size else 64
marshal_capacity size (sized_slice elem n) = of_elements elem n
marshal_capacity size (sized_other n) = of_elements size n

within : (size n : ℕ) → 0 < size → n ≤ 2 ^ 20 / size → n * size ≤ 2 ^ 20
within size n h g = (le-div_iff_mul-le h).0 g

max-bounds : (m : ℕ) → m ≤ 2 ^ 20 → (64 ≤ max 64 m) × (max 64 m ≤ 2 ^ 20)
unfolding max
max-bounds m h = ground arith

not_cut :
    (size n : ℕ) → (size == 0 || ltb limit size || ltb (limit / size) n) ≡ false → n * size ≤ 2 ^ 20
not_cut size n h = within size n (ground arith) (ground arith)

of_elements-bounds : (size n : ℕ) → (64 ≤ of_elements size n) × (of_elements size n ≤ 2 ^ 20)
unfolding of_elements
of_elements-bounds size n =
    elim (Bool-cases (size == 0 || ltb limit size || ltb (limit / size) n)) [
      | inl cut ↦ rw cut (omega arith, omega arith)
      | inr fits ↦ rw fits (max-bounds (n * size) (not_cut size n fits))
    ]

-- Whatever its size and length are, the room that is made for a value is from 64 bytes to 1 MB.
marshal_capacity-bounds :
    (size : ℕ) (s : Sized) → (64 ≤ marshal_capacity size s) × (marshal_capacity size s ≤ 2 ^ 20)
unfolding marshal_capacity max
marshal_capacity-bounds size sized_array = ground arith
marshal_capacity-bounds size (sized_slice elem n) = of_elements-bounds elem n
marshal_capacity-bounds size (sized_other n) = of_elements-bounds size n
