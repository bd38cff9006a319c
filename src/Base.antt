-- ===== src/Base.antt =====
-- Results and errors of Go functions, and the state-passing monad that the codecs are written in.
use binary.Prelude.{◌≢◌, ap}
use binary.Prelude.{List, [], ◌∷◌, ◌++◌, ◌≡◌, refl, ℕ, Bool, true, false, ◌%◌, ◌^◌, ◌<◌}

-- The error values that the package returns, its own and those of io.
pub data Error : Type 0 where
  eof unexpected_eof overflow nil_writer short_write multiple_arms map_key_too_long : Error
  invalid_varint mismatched_series nil_value unsupported_type invalid_tag nil_codec : Error
  arm_not_pointer duplicate_tag mixed_fields not_addressable map_too_large no_method own_error :
      Error

-- What a call returns: a value, an error, or a run-time panic (an index out of range, a slice
-- expression out of bounds, a write to a nil map).
pub data Result {ℓ} (A : Type ℓ) : Type ℓ where
  ok : A → Result A
  err : Error → Result A
  panic : Result A

-- A call that reads and changes a state of type `S`. The state after a failed call is kept.
abbrev pub M {ℓ κ} : Type ℓ → Type κ → Type (ℓ ⊔ κ)
M S A = S → Result A × S

abbrev pub next {ℓ κ μ} :
    {S : Type ℓ} {A : Type κ} {B : Type μ} → Result A × S → (A → M S B) → Result B × S
next (ok a, s) f = f a s
next (err e, s) f = (err e, s)
next (panic, s) f = (panic, s)

module _ {ℓ κ μ} {S : Type ℓ} {A : Type κ} {B : Type μ} where
  infixl 1 ◌>>=◌ ◌>>◌
  abbrev pub ◌>>=◌ : M S A → (A → M S B) → M S B
  m >>= f = λ s. next (m s) f

  abbrev pub ◌>>◌ : M S A → M S B → M S B
  m >> k = λ s. next (m s) (λ _. k)

abbrev pub pure {ℓ κ} : {S : Type ℓ} {A : Type κ} → A → M S A
pure a s = (ok a, s)

abbrev pub fail {ℓ κ} : {S : Type ℓ} {A : Type κ} → Error → M S A
fail e s = (err e, s)

-- `if err = check; err != nil { return err }`
abbrev pub check {ℓ} : {S : Type ℓ} → Bool → Error → M S (Unit {0})
check true e s = (err e, s)
check false e s = (ok tt, s)

-- The bytes of several values, one after the other.
unfoldable pub wire_each {ℓ} : {A : Type ℓ} → (A → List ℕ) → List A → List ℕ
wire_each wire [] = []
wire_each wire (x ∷ xs) = wire x ++ wire_each wire xs

abbrev pub IsByte : ℕ → Type 0
IsByte b = b < 256

abbrev pub IsU64 : ℕ → Type 0
IsU64 x = x < 2 ^ 64

abbrev pub u64 : ℕ → ℕ
u64 x = x % 2 ^ 64

-- Two continuations that agree on what a call returned.
pub next-ext {ℓ κ μ} :
    {S : Type ℓ} {A : Type κ} {B : Type μ} (out : Result A × S) (f g : A → M S B)
    → ((a : A) (s : S) → out ≡ (ok a, s) → f a s ≡ g a s)
    → next out f ≡ next out g
next-ext (ok a, s) f g h = h a s refl
next-ext (err e, s) f g h = refl
next-ext (panic, s) f g h = refl

-- A call that does not panic, followed by one that does not.
pub next-returns {ℓ κ μ} :
    {S : Type ℓ} {A : Type κ} {B : Type μ} (out : Result A × S) (f : A → M S B)
    → out.0 ≢ panic
    → ((a : A) (s : S) → out ≡ (ok a, s) → (f a s).0 ≢ panic)
    → (next out f).0 ≢ panic
next-returns (ok a, s) f h g = g a s refl
next-returns (err e, s) f h g = λ p. cc
next-returns (panic, s) f h g = λ p. h refl

pub err-not_ok {ℓ} : {A : Type ℓ} {e : Error} {a : A} → Path (Result A) (err e) (ok a) → ⊥
err-not_ok h = cc

panic-not_ok {ℓ} : {A : Type ℓ} {a : A} → Path (Result A) panic (ok a) → ⊥
panic-not_ok h = cc

-- A call that returns a value, taken apart.
pub next-ok {ℓ κ μ} :
    {S : Type ℓ} {A : Type κ} {B : Type μ} (out : Result A × S) (f : A → M S B) (b : B) (t : S)
    → next out f ≡ (ok b, t)
    → (a : A) × (s : S) × (out ≡ (ok a, s)) × (f a s ≡ (ok b, t))
next-ok (ok a, s) f b t h = (a, s, refl, h)
next-ok (err e, s) f b t h = absurd (err-not_ok (ap (λ p. p.0) h))
next-ok (panic, s) f b t h = absurd (panic-not_ok (ap (λ p. p.0) h))

-- What two returned pairs have in common.
pub value-eq : {S A : Type 0} {a b : A} {s t : S} → Path (Result A × S) (ok a, s) (ok b, t) → a ≡ b
value-eq h = cc

pub state-eq : {S A : Type 0} {a b : A} {s t : S} → Path (Result A × S) (ok a, s) (ok b, t) → s ≡ t
state-eq h = cc

pub ok-injective : {A : Type 0} {a b : A} → Path (Result A) (ok a) (ok b) → a ≡ b
ok-injective e = cc

pub next-next :
    {S A B C : Type 0} (out : Result A × S) (f : A → M S B) (g : B → M S C)
    → next (next out f) g ≡ next out (λ a s. next (f a s) g)
next-next (ok a, s) f g = refl
next-next (err e, s) f g = refl
next-next (panic, s) f g = refl
