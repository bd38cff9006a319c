-- ===== src/Memory.antt =====
-- nocopy/types.go and unsafe/types.go: the elements of a slice as the bytes that they have in memory,
-- on a machine of either byte order.
use binary.Prelude.{ℕ, zero, suc, ◌*◌, ◌^◌, ◌<◌, ◌≡◌, refl, arith, All}
use binary.Prelude.{List, [], ◌∷◌, length, take, drop, take-append, drop-append, length-append}
use binary.Base.{wire_each}
use binary.Encoder.{little_endian}
use binary.Decoder.{from_little_endian}
use binary.Decoder.Laws.{length-little_endian, from_little_endian-little_endian}

-- How the machine keeps an element of `size` bytes, which is given by the pattern of its bits.
pub record Layout : Type 0 where
  pub size : ℕ
  pub to_bytes : ℕ → List ℕ
  pub of_bytes : List ℕ → ℕ
  pub positive : 0 < size
  pub length-to_bytes : (x : ℕ) → length (to_bytes x) ≡ size
  pub of_bytes-to_bytes : (x : ℕ) → x < 256 ^ size → of_bytes (to_bytes x) ≡ x

abbrev pub little_layout : (size : ℕ) → 0 < size → Layout
little_layout size h = record {
  size = size;
  to_bytes = little_endian size;
  of_bytes = from_little_endian;
  positive = h;
  length-to_bytes = length-little_endian size;
  of_bytes-to_bytes = from_little_endian-little_endian size;
}

module _ (layout : Layout) where
  -- The memory of a slice.
  unfoldable pub memory_of : List ℕ → List ℕ
  memory_of xs = wire_each layout.to_bytes xs

  -- The `n` elements at the front of some memory.
  unfoldable pub elements_of : ℕ → List ℕ → List ℕ
  elements_of zero b = []
  elements_of (suc n) b = layout.of_bytes (take layout.size b) ∷ elements_of n (drop layout.size b)

  pub length-memory_of : (xs : List ℕ) → length (memory_of xs) ≡ length xs * layout.size
  unfolding memory_of wire_each
  length-memory_of [] = omega arith
  length-memory_of (x ∷ xs) =
      rw (length-append, layout.length-to_bytes, length-memory_of xs) (omega arith)

  -- The patterns of elements of that size.
  abbrev pub AreElements : List ℕ → Type 0
  AreElements xs = All (λ x. x < 256 ^ layout.size) xs

  pub elements_of-memory_of :
      (xs : List ℕ) → AreElements xs → elements_of (length xs) (memory_of xs) ≡ xs
  unfolding memory_of wire_each elements_of
  elements_of-memory_of [] h = refl
  elements_of-memory_of (x ∷ xs) h =
      let rest = wire_each layout.to_bytes xs in
      let front = rw layout.length-to_bytes at (take-append (layout.to_bytes x) rest) in
      let back = rw layout.length-to_bytes at (drop-append (layout.to_bytes x) rest) in
      rw (front, back, layout.of_bytes-to_bytes x h.0, elements_of-memory_of xs h.1)
