-- ===== src/Codec/Union/Laws.antt =====
-- The union codec against its wire format, over what its arms do.
use binary.Prelude.{
  ℕ, zero, suc, ◌+◌, ◌/◌, ◌≤◌, ◌<◌, ◌≡◌, ◌≢◌, refl, sym, ap, ◌∙◌, arith, length, All, get_elem?,
  replicate,
}
use binary.Prelude.{List, [], ◌∷◌, ◌++◌, Option, none, some, length-replicate}
use binary.Base.{Error, Result, ok, M, next}
use binary.Varint.{uvarint_bytes}
use binary.Encoder.{Encoder, Writer, write_tagged, new_encoder, buffer}
use binary.Encoder.Laws.{write_tagged_lem, write-buffer}
use binary.Stream.{max_int}
use binary.Decoder.Laws.{Origin, holding, read_tagged-holding}
use binary.Codec.Loops.{All-map}
use binary.Codec.Delivery.{Delivers, kept, finish, error_of}
use binary.Codec.Union.{
  Choice, no_arm, one_arm, several, find_from, find_arm, encode_choice, set_at, fill, max_tag,
  by_tag,
}
use binary.Codec.Union.{lookup, decode_union, entry_of}

-- The tags of a union: no two the same, and none is 0.
abbrev pub IsTags : List ℕ → Type 0
IsTags [] = Unit {0}
IsTags (tag ∷ tags) = (0 < tag) × (tag < 256) × All (λ t. t ≢ tag) tags × IsTags tags

length-set_at : (n i : ℕ) (table : List (Option ℕ)) → length (set_at n i table) ≡ length table
unfolding set_at
length-set_at n i [] = refl
length-set_at zero i (x ∷ table) = refl
length-set_at (suc n) i (x ∷ table) = ap suc (length-set_at n i table)

get-set_at_self :
    (n i : ℕ) (table : List (Option ℕ))
    → n < length table
    → get_elem? (set_at n i table) n ≡ some (some i)
unfolding set_at
get-set_at_self n i [] h = absurd (omega arith)
get-set_at_self zero i (x ∷ table) h = refl
get-set_at_self (suc n) i (x ∷ table) h = get-set_at_self n i table (omega arith)

get-set_at_ne :
    (n i t : ℕ) (table : List (Option ℕ))
    → t ≢ n
    → get_elem? (set_at n i table) t ≡ get_elem? table t
unfolding set_at
get-set_at_ne n i t [] h = refl
get-set_at_ne zero i zero (x ∷ table) h = absurd (h refl)
get-set_at_ne zero i (suc t) (x ∷ table) h = refl
get-set_at_ne (suc n) i zero (x ∷ table) h = refl
get-set_at_ne (suc n) i (suc t) (x ∷ table) h = get-set_at_ne n i t table (λ e. h (ap suc e))

get-fill_ne :
    (i t : ℕ) (tags : List ℕ) (table : List (Option ℕ))
    → All (λ u. u ≢ t) tags
    → get_elem? (fill i tags table) t ≡ get_elem? table t
unfolding fill
get-fill_ne i t [] table h = refl
get-fill_ne i t (tag ∷ tags) table h =
    get-fill_ne (i + 1) t tags (set_at tag i table) h.1
    ∙ get-set_at_ne tag i t table (λ e. h.0 (sym e))

get-fill :
    (i k t : ℕ) (tags : List ℕ) (table : List (Option ℕ))
    → IsTags tags
    → All (λ u. u < length table) tags
    → get_elem? tags k ≡ some t
    → get_elem? (fill i tags table) t ≡ some (some (i + k))
unfolding fill
get-fill i k t [] table h g e = cc
get-fill i zero t (tag ∷ tags) table h g e =
    let same : tag ≡ t = cc in
    rw (← same) (
      get-fill_ne (i + 1) tag tags (set_at tag i table) h.2
      ∙ get-set_at_self tag i table g.0
      ∙ ap (λ (n : ℕ). some (some n)) (omega arith))
get-fill i (suc k) t (tag ∷ tags) table h g e =
    get-fill (i + 1) k t tags (set_at tag i table) h.3
      (All-map _ _ tags (λ u lt. rw (length-set_at tag i table) lt) g.1) e
    ∙ ap (λ (n : ℕ). some (some n)) (omega arith)

max_tag-le : (tags : List ℕ) → All (λ u. u ≤ max_tag tags) tags
unfolding max_tag
max_tag-le [] = tt
max_tag-le (tag ∷ tags) = (ground arith, All-map _ _ tags (λ u h. ground arith) (max_tag-le tags))

-- The table finds each arm by its tag.
pub lookup-get_elem? :
    (tags : List ℕ) (k t : ℕ) → IsTags tags → get_elem? tags k ≡ some t → lookup tags t ≡ some k
unfolding lookup by_tag
lookup-get_elem? tags k t h e =
    ap entry_of (
      get-fill 0 k t tags (replicate (suc (max_tag tags)) none) h
        (All-map _ _ tags
          (λ u (le : u ≤ max_tag tags).
            rw (length-replicate {A = Option ℕ} (suc (max_tag tags)) none) (omega (arith, le)))
          (max_tag-le tags))
        e)
    ∙ ap (λ (n : ℕ). some n) (omega arith)

positive : (tags : List ℕ) → IsTags tags → All (λ u. u ≢ 0) tags
positive [] h = tt
positive (tag ∷ tags) h = ((λ e. absurd (omega arith)), positive tags h.3)

entry-replicate : (n t : ℕ) → entry_of (get_elem? (replicate n none) t) ≡ none
unfolding entry_of
entry-replicate zero t = refl
entry-replicate (suc n) zero = refl
entry-replicate (suc n) (suc t) = entry-replicate n t

pub lookup-none : (tags : List ℕ) (t : ℕ) → All (λ u. u ≢ t) tags → lookup tags t ≡ none
unfolding lookup by_tag
lookup-none tags t h =
    ap entry_of (get-fill_ne 0 t tags (replicate (suc (max_tag tags)) none) h)
    ∙ entry-replicate (suc (max_tag tags)) t

lookup-zero : (tags : List ℕ) → IsTags tags → lookup tags 0 ≡ none
lookup-zero tags h = lookup-none tags 0 (positive tags h)

-- The bytes of the arm that was found, as `WriteTagged` writes them.
unfoldable pub wire_choice : Choice (List ℕ) → List ℕ
wire_choice no_arm = uvarint_bytes 0 ++ (uvarint_bytes 0 ++ [])
wire_choice (one_arm tag body) = uvarint_bytes tag ++ (uvarint_bytes (length body) ++ body)
wire_choice several = []

-- The same arm, with what encodes it and with its bytes.
abbrev pub Agree : Choice (M Encoder (Unit {0})) → Choice (List ℕ) → Type 0
Agree no_arm no_arm = Unit {0}
Agree (one_arm t encode) (one_arm u body) = (t ≡ u) × Delivers encode body
Agree several several = Unit {0}
Agree a b = ⊥

-- The same arms are set, with what encodes each and with its bytes.
abbrev pub AgreeArms :
    List (ℕ × Option (M Encoder (Unit {0}))) → List (ℕ × Option (List ℕ)) → Type 0
AgreeArms [] [] = Unit {0}
AgreeArms ((t, none) ∷ xs) ((u, none) ∷ ys) = AgreeArms xs ys
AgreeArms ((t, some encode) ∷ xs) ((u, some body) ∷ ys) =
    (t ≡ u) × Delivers encode body × AgreeArms xs ys
AgreeArms xs ys = ⊥

-- The search picks the same arm of both.
find_from-Agree :
    (a : Choice (M Encoder (Unit {0}))) (b : Choice (List ℕ))
    (xs : List (ℕ × Option (M Encoder (Unit {0})))) (ys : List (ℕ × Option (List ℕ)))
    → Agree a b
    → AgreeArms xs ys
    → Agree (find_from a xs) (find_from b ys)
unfolding find_from
find_from-Agree a b [] [] h g = h
find_from-Agree a b ((t, none) ∷ xs) ((u, none) ∷ ys) h g = find_from-Agree a b xs ys h g
find_from-Agree no_arm no_arm ((t, some f) ∷ xs) ((u, some y) ∷ ys) h (same, del, g) =
    find_from-Agree (one_arm t f) (one_arm u y) xs ys (same, del) g
find_from-Agree (one_arm n k) (one_arm m z) ((t, some f) ∷ xs) ((u, some y) ∷ ys) h (same, del, g) =
    tt
find_from-Agree several several ((t, some f) ∷ xs) ((u, some y) ∷ ys) h (same, del, g) = tt
find_from-Agree no_arm (one_arm m z) ((t, some f) ∷ xs) ((u, some y) ∷ ys) h g = absurd h
find_from-Agree no_arm several ((t, some f) ∷ xs) ((u, some y) ∷ ys) h g = absurd h
find_from-Agree (one_arm n k) no_arm ((t, some f) ∷ xs) ((u, some y) ∷ ys) h g = absurd h
find_from-Agree (one_arm n k) several ((t, some f) ∷ xs) ((u, some y) ∷ ys) h g = absurd h
find_from-Agree several no_arm ((t, some f) ∷ xs) ((u, some y) ∷ ys) h g = absurd h
find_from-Agree several (one_arm m z) ((t, some f) ∷ xs) ((u, some y) ∷ ys) h g = absurd h
find_from-Agree a b [] (y ∷ ys) h g = absurd g
find_from-Agree a b ((t, none) ∷ xs) [] h g = absurd g
find_from-Agree a b ((t, some f) ∷ xs) [] h g = absurd g
find_from-Agree a b ((t, none) ∷ xs) ((u, some y) ∷ ys) h g = absurd g
find_from-Agree a b ((t, some f) ∷ xs) ((u, none) ∷ ys) h g = absurd g

pub find_arm-Agree :
    (xs : List (ℕ × Option (M Encoder (Unit {0})))) (ys : List (ℕ × Option (List ℕ)))
    → AgreeArms xs ys
    → Agree (find_arm xs) (find_arm ys)
unfolding find_arm
find_arm-Agree xs ys h = find_from-Agree no_arm no_arm xs ys tt h

kept_parts :
    (w : Writer) (f : Option Error)
    → (let e : Encoder = record { out = w; failure = f } in next (kept e) (λ u. kept) ≡ kept e)
unfolding kept error_of
kept_parts w none = refl
kept_parts w (some x) = refl

kept_twice : (e : Encoder) → next (kept e) (λ u. kept) ≡ kept e
kept_twice e = kept_parts e.out e.failure

pub encode_choice-Delivers :
    (a : Choice (M Encoder (Unit {0}))) (b : Choice (List ℕ))
    → Agree a b
    → b ≢ several
    → Delivers (encode_choice a) (wire_choice b)
unfolding encode_choice wire_choice finish
encode_choice-Delivers no_arm no_arm h g e =
    kept_twice (write_tagged 0 [] e) ∙ ap kept (write_tagged_lem 0 [] e)
encode_choice-Delivers (one_arm t encode) (one_arm u body) h g e =
    let state : finish encode (new_encoder (buffer []))
        ≡ (ok tt, record { out = buffer body; failure = none }) =
      h.1 (new_encoder (buffer [])) ∙ ap kept (write-buffer body []) in
    rw (state, h.0) (kept_twice (write_tagged u body e) ∙ ap kept (write_tagged_lem u body e))
encode_choice-Delivers several several h g e = absurd (g refl)
encode_choice-Delivers no_arm (one_arm u body) h g e = absurd h
encode_choice-Delivers no_arm several h g e = absurd h
encode_choice-Delivers (one_arm t encode) no_arm h g e = absurd h
encode_choice-Delivers (one_arm t encode) several h g e = absurd h
encode_choice-Delivers several no_arm h g e = absurd h
encode_choice-Delivers several (one_arm u body) h g e = absurd h

-- The union's bytes are read back as the arm that they name.
pub decode_union-no_arm :
    {E : Type 0} (tags : List ℕ) (empty : E) (decode_arm : ℕ → List ℕ → Result E)
    → IsTags tags
    → (k : Origin) (front rest : List ℕ)
    → decode_union tags empty decode_arm (holding k front (wire_choice no_arm ++ rest))
      ≡ (ok empty, holding k (front ++ wire_choice no_arm) rest)
unfolding decode_union wire_choice
decode_union-no_arm tags empty decode_arm h k front rest =
    rw (read_tagged-holding k 0 [] front rest (omega arith) (omega arith), lookup-zero tags h)

pub decode_union-one_arm :
    {E : Type 0} (tags : List ℕ) (empty v : E) (decode_arm : ℕ → List ℕ → Result E) (i t : ℕ)
    (body : List ℕ)
    → IsTags tags
    → get_elem? tags i ≡ some t
    → t < 256
    → length body ≤ max_int / 2
    → decode_arm i body ≡ ok v
    → (k : Origin) (front rest : List ℕ)
    → decode_union tags empty decode_arm (holding k front (wire_choice (one_arm t body) ++ rest))
      ≡ (ok v, holding k (front ++ wire_choice (one_arm t body)) rest)
unfolding decode_union wire_choice
decode_union-one_arm tags empty v decode_arm i t body h e small fits back k front rest = rw (
  read_tagged-holding k t body front rest (omega arith) fits,
  lookup-get_elem? tags i t h e,
  back,
)
