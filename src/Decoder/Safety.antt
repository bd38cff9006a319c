-- ===== src/Decoder/Safety.antt =====
-- decoder.go: what no call of the decoder does, on any input: it does not panic, and it only moves
-- forward in what it reads.
pub mod Calls
use binary.Prelude.{ℕ, zero, suc, ◌+◌, ◌-◌, ◌≤◌, ◌<◌, ◌≡◌, refl, sym, ◌∙◌, ◌≢◌, arith, length}
use binary.Prelude.{Bool, true, false, if◌then◌else◌}
use binary.Prelude.Int.{ℤ, pos, negsuc}
use mathlib.Core.Path.{subst}
use binary.Base.{Error, Result, ok, err, panic, M, ◌>>=◌, ◌>>◌, next, pure, fail, check}
use binary.Reader.{SliceReader}
use binary.Reader.Safety.{
  IsValid, Advances, read_byte-Advances, slice-Advances, read-Advances, read_uvarint-Advances,
}
use binary.Stream.{StreamReader}
use binary.Stream.Safety.{Drains, read_byte-Drains, slice-Drains, read_uvarint-Drains}
use binary.Decoder.{by_source, Decoder, memory, stream, lift_memory, lift_stream}

abbrev pub IsSound : Decoder → Type 0
IsSound (memory r) = IsValid r
IsSound (stream r) = Unit {0}

-- The decoder afterwards: the same buffer and a position that is not before the old one and not past
-- the end, or a stream with no more bytes to come and the same error after them.
abbrev pub Steps : Decoder → Decoder → Type 0
Steps (memory r) (memory s) =
    (s.buffer ≡ r.buffer) × (r.offset ≤ s.offset) × (s.offset ≤ length r.buffer)
Steps (stream r) (stream s) = (length s.bytes ≤ length r.bytes) × (s.failure ≡ r.failure)
Steps (memory r) (stream s) = ⊥
Steps (stream r) (memory s) = ⊥

pub Steps-refl : (d : Decoder) → IsSound d → Steps d d
Steps-refl (memory r) h = (refl, omega arith, h)
Steps-refl (stream r) h = (omega arith, refl)

pub Steps-IsSound : (d d' : Decoder) → Steps d d' → IsSound d'
Steps-IsSound (memory r) (memory s) h = rw (h.0) h.2
Steps-IsSound (stream r) (stream s) h = tt
Steps-IsSound (memory r) (stream s) h = elim h [ ]
Steps-IsSound (stream r) (memory s) h = elim h [ ]

pub Steps-trans : (d d' d'' : Decoder) → Steps d d' → Steps d' d'' → Steps d d''
Steps-trans (memory r) (memory s) (memory t) h g =
    (g.0 ∙ h.0, omega (arith, h.1, g.1), rw h.0 at g.2)
Steps-trans (memory r) (memory s) (stream t) h g = elim g [ ]
Steps-trans (memory r) (stream s) _ h g = elim h [ ]
Steps-trans (stream r) (memory s) _ h g = elim h [ ]
Steps-trans (stream r) (stream s) (memory t) h g = elim g [ ]
Steps-trans (stream r) (stream s) (stream t) h g = (omega (arith, h.0, g.0), g.1 ∙ h.1)

pub record Moves {ℓ} {A : Type ℓ} (d : Decoder) (out : Result A × Decoder) : Type ℓ where
  pub returns : out.0 ≢ panic
  pub steps : Steps d out.1

-- A call that is safe from every decoder whose position is inside its buffer.
pub record Safe {ℓ} {A : Type ℓ} (m : M Decoder A) : Type ℓ where
  pub moves : (d : Decoder) → IsSound d → Moves d (m d)

next-Moves {ℓ κ} :
    {A : Type ℓ} {B : Type κ} (d : Decoder) (out : Result A × Decoder) (f : A → M Decoder B)
    → Moves d out
    → ((a : A) → Safe (f a))
    → Moves d (next out f)
next-Moves d (ok a, s) f h g =
    let after = (g a).moves s (Steps-IsSound d s h.steps) in
    record { returns = after.returns; steps = Steps-trans d s _ h.steps after.steps }
next-Moves d (err e, s) f h g = record { returns = λ p. cc; steps = h.steps }
next-Moves d (panic, s) f h g = absurd (h.returns refl)

module _ {ℓ} {A : Type ℓ} where
  pub pure-Safe : (a : A) → Safe (λ d. pure a d)
  pure-Safe a = record { moves = λ d h. record { returns = λ p. cc; steps = Steps-refl d h } }

  pub fail-Safe : (e : Error) → Safe {A = A} (λ d. fail e d)
  fail-Safe e = record { moves = λ d h. record { returns = λ p. cc; steps = Steps-refl d h } }

  -- A result that is computed without the decoder.
  pub value-Safe : (out : Result A) → out ≢ panic → Safe (λ d. (out, d))
  value-Safe out h = record { moves = λ d v. record { returns = h; steps = Steps-refl d v } }

  pub if-Safe : (b : Bool) {m k : M Decoder A} → Safe m → Safe k → Safe (if b then m else k)
  if-Safe true h g = h
  if-Safe false h g = g

  pub by_source-Safe : {m k : M Decoder A} → Safe m → Safe k → Safe (by_source m k)
  by_source-Safe {m = m} {k = k} h g = record { moves = each }
    where
      each : (d : Decoder) → IsSound d → Moves d (by_source m k d)
      each (memory r) v = g.moves (memory r) v
      each (stream r) v = h.moves (stream r) v

module _ {ℓ κ} {A : Type ℓ} {B : Type κ} where
  pub bind-Safe :
      {m : M Decoder A} {f : A → M Decoder B} → Safe m → ((a : A) → Safe (f a)) → Safe (m >>= f)
  bind-Safe {m = m} {f = f} h g = record { moves = λ d v. next-Moves d (m d) f (h.moves d v) g }

  pub then-Safe : {m : M Decoder A} {k : M Decoder B} → Safe m → Safe k → Safe (m >> k)
  then-Safe {m = m} {k = k} h g = bind-Safe h (λ a. g)

pub check-Safe : (b : Bool) (e : Error) → Safe (λ d. check b e d)
check-Safe true e = fail-Safe e
check-Safe false e = pure-Safe tt
