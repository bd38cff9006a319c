-- ===== src/Scanner/Methods.antt =====
-- scanner.go: the head of `scanType`, for types that have methods of their own. What `reflect` finds under a
-- name is a parameter: the method on the type, the one on pointers to it, and whether it has the
-- signature that is asked for.
use binary.Prelude.{
  Bool-cases, inl, inr, ap, sym, ◌∙◌, ℕ, List, ◌≡◌, refl, ◌&&◌, Bool, true, false, Option, none,
  some, if◌then◌else◌,
}
use binary.Base.{nil_codec, Result, ok, err, panic}
use binary.Codec.{Codec}
use binary.Codec.Custom.{Methods, custom_method, unmarshal_into}
use binary.Codec.Custom.Laws.{unmarshal_into-found}

pub record Named (F : Type 0) : Type 0 where
  pub on_value : Option (Bool × F)
  pub on_pointer : Option (Bool × F)

method_of : {F : Type 0} → Option (Bool × F) → Option F
method_of (some (true, m)) = some m
method_of (some (false, m)) = none
method_of none = none

-- The two results of `findMethod`.
found_pointer : {F : Type 0} → Option F → Option F → Option F × Option F
found_pointer (some m) pointer = (some m, none)
found_pointer none pointer = (none, pointer)

pub find_method : {F : Type 0} → Named F → Option F × Option F
unfolding method_of found_pointer
find_method n = found_pointer (method_of n.on_value) (method_of n.on_pointer)

has : {F : Type 0} → Option F × Option F → Bool
has (some m, pointer) = true
has (none, some p) = true
has (none, none) = false

module _ {A : Type 0} where
  -- `scanBinaryMarshaler`
  unfoldable pub scan_binary_marshaler :
      Named (A → Result (List ℕ)) → Named (A → List ℕ → Result A) → Option (Methods A)
  unfolding has find_method
  scan_binary_marshaler marshal unmarshal =
      let m = find_method marshal in
      let u = find_method unmarshal in
      if has m && has u
      then some (record {
        marshaler = m.0;
        ptr_marshaler = m.1;
        unmarshaler = u.0;
        ptr_unmarshaler = u.1;
      })
      else none

-- `scanCustomCodec` on the method `GetBinaryCodec` of pointers to the type: whether its signature is the
-- one that is asked for, and the codec that the call returned, if it is not nil.
pub scan_custom_codec : {C : Type 0} → Option (Bool × Option C) → Option (Option C)
scan_custom_codec none = none
scan_custom_codec (some (false, c)) = none
scan_custom_codec (some (true, c)) = some c

-- What `scanType` comes to: a codec of the program, the methods of the type, or a codec by its kind.
pub data Chosen (C A : Type 0) : Type 0 where
  program_codec : C → Chosen C A
  own_methods : Methods A → Chosen C A
  by_kind : Codec → Chosen C A

module _ {C A : Type 0} where
  of_kind : Result Codec → Result (Chosen C A)
  of_kind (ok c) = ok (by_kind c)
  of_kind (err x) = err x
  of_kind panic = panic

  of_methods : Option (Methods A) → Result Codec → Result (Chosen C A)
  unfolding of_kind
  of_methods (some m) kind = ok (own_methods m)
  of_methods none kind = of_kind kind

  of_custom : Option (Option C) → Option (Methods A) → Result Codec → Result (Chosen C A)
  unfolding of_methods
  of_custom (some none) methods kind = err nil_codec
  of_custom (some (some c)) methods kind = ok (program_codec c)
  of_custom none methods kind = of_methods methods kind

  -- `scanType`, given what its switch over the kinds returns.
  pub scan_head :
      Option (Bool × Option C)
      → Named (A → Result (List ℕ))
      → Named (A → List ℕ → Result A)
      → Result Codec
      → Result (Chosen C A)
  unfolding of_custom
  scan_head custom marshal unmarshal kind =
      of_custom (scan_custom_codec custom) (scan_binary_marshaler marshal unmarshal) kind

false-true : false ≡ true → ⊥
false-true e = cc

true-and : (a b : Bool) → (a && b) ≡ true → b ≡ true
true-and true b h = h
true-and false b h = absurd (false-true h)

callable :
    {F : Type 0} (n : Named F)
    → has (find_method n) ≡ true
    → (m : F) × (custom_method true (find_method n).0 (find_method n).1 ≡ some m)
unfolding find_method custom_method has found_pointer
callable n h = found (method_of n.on_value) (method_of n.on_pointer) h
  where
    found :
        {F : Type 0} (value pointer : Option F)
        → has (found_pointer value pointer) ≡ true
        → (m : F) × (custom_method true
              (found_pointer value pointer).0
              (found_pointer value pointer).1
            ≡ some m)
    found (some m) pointer h = (m, refl)
    found none (some p) h = (p, refl)
    found none none h = absurd (false-true h)

some-injective : {A : Type 0} {a b : A} → Path (Option A) (some a) (some b) → a ≡ b
some-injective h = cc

none-some : {A : Type 0} {a : A} → Path (Option A) none (some a) → ⊥
none-some h = cc

-- Where a type is given the codec over methods of its own, DecodeTo, whose target has an address, finds the
-- method that it calls: nothing is missing then, and the call is that method's.
pub scan_binary_marshaler-callable :
    {A : Type 0} (marshal : Named (A → Result (List ℕ))) (unmarshal : Named (A → List ℕ → Result A))
    (methods : Methods A) (old : A) (b : List ℕ)
    → scan_binary_marshaler marshal unmarshal ≡ some methods
    → (f : A → List ℕ → Result A) × (custom_method true methods.unmarshaler methods.ptr_unmarshaler
        ≡ some f)
      × (unmarshal_into methods old b ≡ f old b)
unfolding scan_binary_marshaler
scan_binary_marshaler-callable marshal unmarshal methods old b h =
    elim (Bool-cases (has (find_method marshal) && has (find_method unmarshal))) [
      | inl both ↦
          let made = some-injective (rw both at h) in
          let found = callable unmarshal (true-and _ _ both) in
          let here : custom_method true methods.unmarshaler methods.ptr_unmarshaler ≡ some found.0 =
            ap (λ (m : Methods _). custom_method true m.unmarshaler m.ptr_unmarshaler) (sym made)
            ∙ found.1 in
          (found.0, here, unmarshal_into-found methods found.0 old b here)
      | inr lacking ↦ absurd (none-some (rw lacking at h))
    ]
