-- ===== src/Reader/View.antt =====
-- A slice reader seen as the bytes before and after its position, and what each call does to them.
use binary.Prelude.{◌≤◌, zero, suc, take, refl, ap, [], ◌∷◌}
use binary.Prelude.{ℕ, ◌+◌, ◌<◌, ◌≡◌, arith}
use binary.Prelude.{List, [], ◌∷◌, ◌++◌, length, append_assoc, length-append}
use binary.Prelude.{get_elem?-append_mid, take-append, drop-append}
use binary.Prelude.Int.{pos}
use binary.Base.{ok, err, eof}
use binary.Prelude.{drop, append-take-drop, length-take}
use binary.Reader.{SliceReader, read_byte, slice, read, len}

-- The reader that has read `front` and has `rest` before it.
abbrev pub at : List ℕ → List ℕ → SliceReader
at front rest = record { buffer = front ++ rest; offset = length front }

pub at-advance :
    (front bytes rest : List ℕ) (n : ℕ)
    → n ≡ length front + length bytes
    → (let r : SliceReader = record { buffer = front ++ (bytes ++ rest); offset = n } in r)
      ≡ at (front ++ bytes) rest
at-advance front bytes rest n e = rw (e, append_assoc) (rw (length-append front bytes))

pub read_byte-at :
    (front rest : List ℕ) (b : ℕ)
    → read_byte (at front (b ∷ rest)) ≡ (ok b, at (front ++ (b ∷ [])) rest)
unfolding read_byte
read_byte-at front rest b = ground (
  arith,
  length-append front (b ∷ rest),
  get_elem?-append_mid front rest b,
  at-advance front (b ∷ []) rest (length front + 1),
)

pub slice-at :
    (front bytes rest : List ℕ)
    → slice (pos (length bytes)) (at front (bytes ++ rest)) ≡ (ok bytes, at (front ++ bytes) rest)
unfolding slice
slice-at front bytes rest = ground (
  arith,
  length-append front (bytes ++ rest),
  length-append bytes rest,
  drop-append front (bytes ++ rest),
  take-append bytes rest,
  at-advance front bytes rest (length front + length bytes),
)

pub len-at : (front rest : List ℕ) → len (at front rest) ≡ length rest
unfolding len
len-at front rest = omega (arith, length-append front rest)

pub read-at :
    (front bytes rest : List ℕ)
    → 0 < length bytes
    → read (length bytes) (at front (bytes ++ rest)) ≡ (ok bytes, at (front ++ bytes) rest)
unfolding read
read-at front bytes rest h = ground (
  arith,
  length-append front (bytes ++ rest),
  length-append bytes rest,
  drop-append front (bytes ++ rest),
  take-append bytes rest,
  at-advance front bytes rest (length front + length bytes),
)

take_all : (n : ℕ) (xs : List ℕ) → length xs ≤ n → take n xs ≡ xs
take_all zero [] h = refl
take_all zero (x ∷ xs) h = absurd (omega arith)
take_all (suc n) [] h = refl
take_all (suc n) (x ∷ xs) h = ap (λ ys. x ∷ ys) (take_all n xs (omega arith))

pub read-at_short :
    (n : ℕ) (front body : List ℕ)
    → 0 < length body
    → length body ≤ n
    → read n (at front body)
      ≡ (ok body, record { buffer = front ++ body; offset = length front + length body })
unfolding read
read-at_short n front body h g =
    ground (arith, length-append front body, drop-append front body, take_all n body g)

-- Every reader whose position is inside its buffer is seen so.
pub at-take-drop :
    (r : SliceReader)
    → r.offset ≤ length r.buffer
    → at (take r.offset r.buffer) (drop r.offset r.buffer) ≡ r
at-take-drop r h = rw (append-take-drop r.offset r.buffer, length-take r.offset r.buffer h) refl

pub slice-at_short :
    (front rest : List ℕ) (n : ℕ)
    → length rest < n
    → slice (pos n) (at front rest) ≡ (err eof, at front rest)
unfolding slice
slice-at_short front rest n h = ground (arith, length-append front rest)
