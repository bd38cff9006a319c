-- ===== src/Codec/Map/Lookup.antt =====
-- What a map says of a key, after entries have been stored in it.
use binary.Codec.{KeyKind, KeyVal}
use binary.Prelude.{
  ℕ, ◌≤◌, ◌≡◌, refl, sym, ap, ◌∙◌, length, All, List, [], ◌∷◌, ◌++◌, Bool, true, false, Bool-cases,
  inl, inr,
}
use binary.Prelude.{Option, none, some, if◌then◌else◌}
use binary.Base.{M, ok}
use binary.Stream.{max_int}
use binary.Decoder.{Decoder}
use binary.Decoder.Laws.{Origin, holding}
use binary.Codec.Key.{same_key}
use binary.Codec.Key.Laws.{FitsKey, same_key-eq, same_key_self}
use binary.Codec.Map.{get, put, decode_map}
use binary.Codec.Map.Laws.{wire_map, put_all, Entry, decode_map-put_all}

pub or_else : {A : Type 0} → Option A → Option A → Option A
or_else (some a) other = some a
or_else none other = other

-- What the last of the entries for a key says.
unfoldable pub last_value : {A : Type 0} (k : KeyKind) → List (KeyVal k × A) → KeyVal k → Option A
unfolding or_else
last_value k [] q = none
last_value k ((key, v) ∷ es) q =
    or_else (last_value k es q) (if same_key k key q then some v else none)

if_twice :
    {A : Type 0} (b : Bool) (x y z : A)
    → (if b then x else z) ≡ (if b then x else (if b then y else z))
if_twice true x y z = refl
if_twice false x y z = refl

if_swap :
    {A : Type 0} (b c : Bool) (x y z : A)
    → (b ≡ true → c ≡ true → ⊥)
    → (if b then x else (if c then y else z)) ≡ (if c then y else (if b then x else z))
if_swap true true x y z h = absurd (h refl refl)
if_swap true false x y z h = refl
if_swap false true x y z h = refl
if_swap false false x y z h = refl

or_else-if :
    {A : Type 0} (found before : Option A) (b : Bool) (v : A)
    → or_else found (if b then some v else before)
      ≡ or_else (or_else found (if b then some v else none)) before
unfolding or_else
or_else-if (some a) before b v = refl
or_else-if none before true v = refl
or_else-if none before false v = refl

or_else-none : {A : Type 0} (found : Option A) → or_else found none ≡ found
unfolding or_else
or_else-none (some a) = refl
or_else-none none = refl

one_key :
    (k : KeyKind) (a key q : KeyVal k)
    → same_key k key a ≡ false
    → same_key k key q ≡ true
    → same_key k a q ≡ true
    → ⊥
one_key k a key q f s t =
    let e : key ≡ a = same_key-eq k key q s ∙ sym (same_key-eq k a q t) in
    let self : same_key k key a ≡ true = rw e (same_key_self k a) in cc

module _ {A : Type 0} (k : KeyKind) where
  get-put :
      (a q : KeyVal k) (w : A) (m : List (KeyVal k × A))
      → get (same_key k) (put (same_key k) a w m) q
        ≡ (if same_key k a q then some w else get (same_key k) m q)
  unfolding get put
  get-put a q w [] = refl
  get-put a q w ((key, v) ∷ m) = elim (Bool-cases (same_key k key a)) [
    | inl t ↦
        let e : key ≡ a = same_key-eq k key a t in
        rw t (rw e (if_twice (same_key k a q) (some w) (some v) (get (same_key k) m q)))
    | inr f ↦
        rw (f, get-put a q w m)
          (if_swap (same_key k key q) (same_key k a q) (some v) (some w) (get (same_key k) m q)
            (one_key k a key q f))
  ]

  get-put_all :
      (q : KeyVal k) (m es : List (KeyVal k × A))
      → get (same_key k) (put_all k es m) q ≡ or_else (last_value k es q) (get (same_key k) m q)
  unfolding put_all last_value or_else
  get-put_all q m [] = refl
  get-put_all q m ((key, v) ∷ es) =
      get-put_all q (put (same_key k) key v m) es
      ∙ ap (or_else (last_value k es q)) (get-put key q v m)
      ∙ or_else-if (last_value k es q) (get (same_key k) m q) (same_key k key q) v

-- DecodeTo of a map, on a count and as many entries that are written behind one another, gives a map in
-- which each key has the value of the last entry for it, and which has no other keys. No key need be
-- there once only, so the order in which range comes by the entries of a map does not matter.
pub decode_map-get :
    {V : Type 0} (k : KeyKind) (decode : M Decoder V) (wire : V → List ℕ) (min : ℕ)
    (es : List (KeyVal k × V))
    → All (λ e. FitsKey k e.0) es
    → All (λ e. Entry decode wire min e.1) es
    → length es ≤ max_int
    → (o : Origin) (front rest : List ℕ)
    → (m : List (KeyVal k × V)) × (decode_map k min decode
          (holding o front (wire_map k wire es ++ rest))
        ≡ (ok m, holding o (front ++ wire_map k wire es) rest))
      × ((q : KeyVal k) → get (same_key k) m q ≡ last_value k es q)
unfolding get
decode_map-get k decode wire min es keys values size o front rest = (
  put_all k es [],
  decode_map-put_all k decode wire min es keys values size o front rest,
  λ q. get-put_all k q [] es ∙ or_else-none (last_value k es q),
)
