-- ===== src/Sorted/Deltas.antt =====
-- sorted/codecs.go and sorted/timeseries.go: the loops over the differences.
use binary.Prelude.{ℕ, zero, suc, ◌%◌, ◌^◌, ◌≤◌, ◌≡◌, ◌≢◌, refl, arith, length, All}
use binary.Prelude.{List, [], ◌∷◌, ◌++◌, append_assoc}
use binary.Prelude.Int.{ℤ, pos, negsuc, word, signed, InRange}
use binary.Base.{ok, panic, next, next-returns, IsU64}
use binary.Varint.{uvarint_bytes, fold_sign}
use binary.Varint.Shape.{uvarint_bytes-cons, varint_bytes-eq-uvarint_bytes}
use binary.Varint.Zigzag.{fold_sign-IsU64, decode_varint-fold_sign}
use binary.Sorted.{uvarint, sub64, add64, append_uint_deltas, append_int_deltas, decode_deltas}
use binary.Sorted.{add_code, count_varints, read_delta}
use binary.Sorted.Scan.{uvarint_lem, uvarint-count_varints, uvarint-returns}

module _ {T : Type 0} (add : ℕ → ℕ → ℕ) (element : ℕ → T) (blank : T) where
  -- One round on an appended code.
  round :
      (slots prev code : ℕ) (rest : List ℕ)
      → IsU64 code
      → decode_deltas add element blank (suc slots) prev (uvarint_bytes code ++ rest)
        ≡ next
            (decode_deltas add element blank slots (add prev code) rest)
            (λ xs rest'. (ok (element (add prev code) ∷ xs), rest'))
  unfolding decode_deltas
  round slots prev code rest h =
      let (b, more, e, byte) = uvarint_bytes-cons code in
      let read : uvarint (b ∷ (more ++ rest)) ≡ (ok code, rest) =
        rw e at (uvarint_lem code rest h) in
      rw (e, read)

  -- The loop never runs past a slice with a place for each byte below 0x80.
  pub no_panic :
      (slots prev : ℕ) (buffer : List ℕ)
      → count_varints buffer ≤ slots
      → (decode_deltas add element blank slots prev buffer).0 ≢ panic
  unfolding decode_deltas
  no_panic slots prev [] h = λ e. cc
  no_panic zero prev (b ∷ buffer) h =
      next-returns (uvarint (b ∷ buffer)) _ (uvarint-returns (b ∷ buffer))
        λ x s e. absurd (omega (arith, uvarint-count_varints (b ∷ buffer) x s e))
  no_panic (suc slots) prev (b ∷ buffer) h =
      next-returns (uvarint (b ∷ buffer)) _ (uvarint-returns (b ∷ buffer)) λ x s e.
        next-returns (decode_deltas add element blank slots (add prev x) s) _
          (no_panic slots (add prev x) s (omega (arith, uvarint-count_varints (b ∷ buffer) x s e)))
          (λ xs rest e'. λ p. cc)

add64-sub64 : (prev value : ℕ) → IsU64 prev → IsU64 value → add64 prev (sub64 value prev) ≡ value
add64-sub64 prev value h g = omega arith

-- What was appended for unsigned elements is read back.
pub decode_deltas-append_uint_deltas :
    (w prev : ℕ) (xs : List ℕ)
    → IsU64 prev
    → All (λ x. IsU64 x × (x % 2 ^ w ≡ x)) xs
    → decode_deltas add64 (λ p. p % 2 ^ w) 0 (length xs) prev (append_uint_deltas prev xs)
      ≡ (ok xs, [])
unfolding append_uint_deltas
decode_deltas-append_uint_deltas w prev [] h g = unfold decode_deltas in refl
decode_deltas-append_uint_deltas w prev (x ∷ xs) h g = rw (
  round add64 (λ p. p % 2 ^ w) 0 (length xs) prev (sub64 x prev) (append_uint_deltas x xs)
      (omega arith),
  add64-sub64 prev x h g.0.0,
  decode_deltas-append_uint_deltas w x xs g.0.0 g.1,
  g.0.1,
)

word-signed : (x : ℕ) → IsU64 x → InRange 64 (signed 64 x) × (word 64 (signed 64 x) ≡ x)
word-signed x h = ground arith

word-IsU64 : (v : ℤ) → IsU64 (word 64 v)
word-IsU64 (pos n) = omega arith
word-IsU64 (negsuc n) = omega arith

-- What was appended for signed elements is read back.
pub decode_deltas-append_int_deltas :
    (w : ℕ) (prev : ℤ) (xs : List ℤ)
    → All (λ x. signed w (word 64 x % 2 ^ w) ≡ x) xs
    → decode_deltas add_code
        (λ p. signed w (p % 2 ^ w))
        (pos 0)
        (length xs)
        (word 64 prev)
        (append_int_deltas prev xs)
      ≡ (ok xs, [])
unfolding append_int_deltas
decode_deltas-append_int_deltas w prev [] g = unfold decode_deltas in refl
decode_deltas-append_int_deltas w prev (x ∷ xs) g =
    let diff : ℕ = sub64 (word 64 x) (word 64 prev) in
    let (inside, same) = word-signed diff (omega arith) in
    rw (
      varint_bytes-eq-uvarint_bytes,
      round add_code (λ p. signed w (p % 2 ^ w)) (pos 0) (length xs) (word 64 prev)
          (fold_sign (signed 64 diff)) (append_int_deltas x xs)
          (fold_sign-IsU64 (signed 64 diff) inside),
      decode_varint-fold_sign (signed 64 diff) inside,
      same,
      add64-sub64 (word 64 prev) (word 64 x) (word-IsU64 prev) (word-IsU64 x),
      decode_deltas-append_int_deltas w x xs g.1,
      g.0,
    )

pub read_delta-append_uint_deltas :
    (prev : ℕ) (xs rest : List ℕ)
    → IsU64 prev
    → All IsU64 xs
    → read_delta (length xs) prev (append_uint_deltas prev xs ++ rest) ≡ (ok xs, rest)
unfolding append_uint_deltas read_delta
read_delta-append_uint_deltas prev [] rest h g = refl
read_delta-append_uint_deltas prev (x ∷ xs) rest h g = rw (
  append_assoc,
  uvarint_lem (sub64 x prev) (append_uint_deltas x xs ++ rest) (omega arith),
  add64-sub64 prev x h g.0,
  read_delta-append_uint_deltas x xs rest g.0 g.1,
)

count-code :
    (code : ℕ) (rest : List ℕ)
    → IsU64 code
    → count_varints (uvarint_bytes code ++ rest) ≡ suc (count_varints rest)
count-code code rest h = uvarint-count_varints _ code rest (uvarint_lem code rest h)

-- `countVarints` of appended differences is the number of elements.
pub count-append_uint_deltas :
    (prev : ℕ) (xs : List ℕ) → count_varints (append_uint_deltas prev xs) ≡ length xs
unfolding append_uint_deltas
count-append_uint_deltas prev [] = unfold count_varints in refl
count-append_uint_deltas prev (x ∷ xs) = rw (
  count-code (sub64 x prev) (append_uint_deltas x xs) (omega arith),
  count-append_uint_deltas x xs,
)

pub count-append_int_deltas :
    (prev : ℤ) (xs : List ℤ) → count_varints (append_int_deltas prev xs) ≡ length xs
unfolding append_int_deltas
count-append_int_deltas prev [] = unfold count_varints in refl
count-append_int_deltas prev (x ∷ xs) =
    let diff : ℕ = sub64 (word 64 x) (word 64 prev) in
    let (inside, same) = word-signed diff (omega arith) in
    rw (
      varint_bytes-eq-uvarint_bytes,
      count-code (fold_sign (signed 64 diff)) (append_int_deltas x xs)
          (fold_sign-IsU64 (signed 64 diff) inside),
      count-append_int_deltas x xs,
    )
