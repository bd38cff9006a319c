-- ===== src/Codec/Delivery.antt =====
-- encoder.go: the end of `Encode`, which returns the encoder's error where the codec returns none.
-- A codec may return that error itself, and early: a union does.
use binary.Prelude.{
  Bool, if◌then◌else◌, Bool-cases, inl, inr, ℕ, ◌≡◌, sym, ap, ◌∙◌, List, [], ◌∷◌, ◌++◌, Option,
  none, some, All,
}
use binary.Base.{Error, Result, ok, err, panic, M, ◌>>◌, pure, next, wire_each}
use binary.Encoder.{Encoder, write}
use binary.Encoder.Laws.{write-write, write-nil, write-failed}
use binary.Codec.Loops.{encode_each}

-- `err = e.err`
unfoldable pub error_of : Option Error → Result (Unit {0})
error_of none = ok tt
error_of (some x) = err x

unfoldable pub kept : M Encoder (Unit {0})
unfolding error_of
kept e = (error_of e.failure, e)

-- `if err = c.EncodeTo(e, rv); err == nil { err = e.err }`
unfoldable pub finish : M Encoder (Unit {0}) → M Encoder (Unit {0})
unfolding kept
finish m = do m; kept

-- To the end of `Encode`, `m` is one write of `bytes`.
abbrev pub Delivers : M Encoder (Unit {0}) → List ℕ → Type 0
Delivers m bytes = (e : Encoder) → finish m e ≡ kept (write bytes e)

pub Delivers-of_write :
    (m : M Encoder (Unit {0})) (bytes : List ℕ)
    → ((e : Encoder) → m e ≡ (ok tt, write bytes e))
    → Delivers m bytes
unfolding finish
Delivers-of_write m bytes h e = rw (h e)

-- What a call that delivers has returned.
error-some :
    (f : Option Error) {x : Error} → Path (Result (Unit {0})) (err x) (error_of f) → f ≡ some x
unfolding error_of
error-some none h = cc
error-some (some y) h = cc

panic-not_error : (f : Option Error) → Path (Result (Unit {0})) panic (error_of f) → ⊥
unfolding error_of
panic-not_error none h = cc
panic-not_error (some y) h = cc

Delivers-next :
    (out : Result (Unit {0}) × Encoder) (k : M Encoder (Unit {0})) (p q : List ℕ) (e : Encoder)
    → next out (λ u. kept) ≡ kept (write p e)
    → Delivers k q
    → next (next out (λ u. k)) (λ u. kept) ≡ kept (write (p ++ q) e)
unfolding kept finish
Delivers-next (ok u, e1) k p q e h g =
    let same : e1 ≡ write p e = ap (λ o. o.1) h in
    g e1 ∙ ap (λ s. kept (write q s)) same ∙ ap kept (write-write p q e)
Delivers-next (err x, e1) k p q e h g =
    let same : e1 ≡ write p e = ap (λ o. o.1) h in
    let failed : (write p e).failure ≡ some x = error-some (write p e).failure (ap (λ o. o.0) h) in
    h ∙ ap kept (sym (write-failed q (write p e) failed) ∙ write-write p q e)
Delivers-next (panic, e1) k p q e h g =
    absurd (panic-not_error (write p e).failure (ap (λ o. o.0) h))

pub Delivers-then :
    (m k : M Encoder (Unit {0})) (p q : List ℕ)
    → Delivers m p
    → Delivers k q
    → Delivers (do m; k) (p ++ q)
unfolding finish
Delivers-then m k p q h g e = Delivers-next (m e) k p q e (h e) g

pub Delivers-nil : Delivers (pure tt) []
unfolding finish
Delivers-nil e = rw write-nil

pub encode_each-Delivers :
    {A : Type 0} (encode : A → M Encoder (Unit {0})) (wire : A → List ℕ) (xs : List A)
    → All (λ x. Delivers (encode x) (wire x)) xs
    → Delivers (encode_each encode xs) (wire_each wire xs)
unfolding wire_each encode_each
encode_each-Delivers encode wire [] h = Delivers-nil
encode_each-Delivers encode wire (x ∷ xs) h =
    Delivers-then (encode x) (encode_each encode xs) (wire x) (wire_each wire xs) h.0
      (encode_each-Delivers encode wire xs h.1)

-- Two ways to write the same, of which the encoder's state picks one.
pub Delivers-either :
    (test : Encoder → Bool) (m k : M Encoder (Unit {0})) (bytes : List ℕ)
    → Delivers m bytes
    → Delivers k bytes
    → Delivers (λ e. if test e then m e else k e) bytes
unfolding finish
Delivers-either test m k bytes h g e = elim (Bool-cases (test e)) [
  | inl t ↦ rw t (h e)
  | inr f ↦ rw f (g e)
]
