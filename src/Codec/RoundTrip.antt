-- ===== src/Codec/RoundTrip.antt =====
-- codecs.go: DecodeTo against the wire format.
use binary.Prelude.{ℕ, ◌≡◌, List, ◌++◌, All, append_assoc, append-nil}
use binary.Base.{ok}
use binary.Decoder.Laws.{Origin, holding}
use binary.Codec.{
  Codec, Fields, primitive, pointer, byte_slice, bool_slice, string_slice, fixed_slice,
}
use binary.Codec.{
  varint_slice, varuint_slice, collection, slice_of_ptr, struct, no_fields, field, skipped,
}
use binary.Codec.{Val, Vals, zero_value}
use binary.Codec.Estimates.{is_zero_wire, wire_min_bytes}
use binary.Codec.Primitive.{decode_primitive-Decodes}
use binary.Codec.Bytes.{decode_bytes-Decodes}
use binary.Codec.Bytes.{decode_bools-Decodes}
use binary.Codec.Varints.Laws.{decode_varints-Decodes}
use binary.Codec.Varints.Laws.{decode_varuints-Decodes}
use binary.Codec.Strings.{decode_strings-Decodes}
use binary.Codec.Floats.Laws.{decode_fixeds-Decodes}
use binary.Codec.Collection.{decode_collection-Decodes}
use binary.Codec.Pointer.{decode_pointer-Decodes, Behind-map}
use binary.Codec.Pointer.{decode_slice_of_ptr-Decodes}
use binary.Codec.Collection.{Element}
use binary.Codec.Loops.{Decodes, All-map}
use binary.Codec.Tree.{decode, decode_fields, decode_arm, wire, wire_fields}
use binary.Codec.Tree.{decode_direct_from, has_primitive, none_held}
use binary.Prelude.{Bool-cases, inl, inr}
use binary.Codec.Offsets.Laws.{read_direct-Decodes}
use binary.Codec.Tree.{arm_bodies, is_struct, tags_of}
use binary.Codec.Tree.Fits.{Fits, FitsFields, FitsOpts, set_arms, IsCodec, AreFields, AreArms}
use binary.Prelude.{
  zero, suc, refl, sym, ap, ◌∙◌, arith, ◌/◌, ◌≤◌, ◌<◌, length, [], ◌∷◌, none, some, get_elem?,
}
use binary.Stream.{max_int}
use binary.Codec.{map_of, string_map, uint64_map, union, Arms, no_arms, arm, Opts, no_values}
use binary.Codec.Map.Laws.{decode_map-Decodes}
use binary.Codec.Map.Fast.Laws.{decode_string_map-Decodes}
use binary.Codec.Map.Fast.Laws.{decode_uint64_map-Decodes}
use binary.Codec.Union.{no_arm, one_arm, find_arm}
use binary.Codec.Union.Laws.{IsTags}
use binary.Codec.Union.Laws.{decode_union-no_arm, decode_union-one_arm}
use binary.Codec.MinBytes.{min_le, zero_wire}
use binary.Codec.{KeyKind, KeyVal}
use binary.Codec.Map.Laws.{Entry}
use binary.Codec.Tree.{other_arm, this_arm}
use binary.Codec.Selection.{none_set}
use binary.Reader.{new_slice_reader}
use binary.Reader.View.{at}
use binary.Decoder.Laws.{in_memory}
use binary.Decoder.{memory}

-- What `decode_collection-Decodes` asks of the elements, from what holds of each.
elements :
    (c : Codec) (v : List (Val c))
    → ((x : Val c) → Fits c x → Decodes (decode c) (wire c) x)
    → All (Fits c) v
    → All (Element (decode c) (wire c) (wire_min_bytes c)) v
elements c v back h = All-map _ _ v (λ x hx. (back x hx, min_le c x hx)) h

elements_of_map :
    (c : Codec) (k : KeyKind) (m : List (KeyVal k × Val c))
    → ((x : Val c) → Fits c x → Decodes (decode c) (wire c) x)
    → All (λ e. Fits c e.1) m
    → All (λ e. Entry (decode c) (wire c) (wire_min_bytes c) e.1) m
elements_of_map c k m back h = All-map _ _ m (λ x hx. (back x.1 hx, min_le c x.1 hx)) h

small_tag : (tags : List ℕ) (i t : ℕ) → IsTags tags → get_elem? tags i ≡ some t → t < 256
small_tag [] i t h e = cc
small_tag (tag ∷ tags) zero t h e = let same : tag ≡ t = cc in omega (arith, same)
small_tag (tag ∷ tags) (suc i) t h e = small_tag tags i t h.3 e

-- What is set of a union's arms: none, or the one that the search finds, whose body is decoded to it.
data Setting (arms : Arms) (v : Opts arms) : Type 0 where
  all_unset : find_arm (arm_bodies arms v) ≡ no_arm → v ≡ no_values arms → Setting arms v
  one_set :
      (i t : ℕ) (body : List ℕ)
      → find_arm (arm_bodies arms v) ≡ one_arm t body
      → get_elem? (tags_of arms) i ≡ some t
      → length body ≤ max_int / 2
      → decode_arm arms i body ≡ ok v
      → Setting arms v

nothing_set : (v : Opts no_arms) → Setting no_arms v
unfolding arm_bodies find_arm
nothing_set v = all_unset refl refl

later_arm :
    (tag : ℕ) (c : Codec) (arms : Arms) (v : Opts arms)
    → Setting arms v
    → Setting (arm tag c arms) (none, v)
unfolding arm_bodies decode_arm find_arm
later_arm tag c arms v (all_unset f e) = all_unset f (ap (λ r. (none, r)) e)
later_arm tag c arms v (one_set i t body f g s d) = one_set (suc i) t body f g s (ap other_arm d)

this_arm_set :
    (tag : ℕ) (c : Codec) (arms : Arms) (x : Val c) (v : Opts arms)
    → Decodes (decode c) (wire c) x
    → length (wire c x) ≤ max_int / 2
    → set_arms arms v ≡ 0
    → Setting (arm tag c arms) (some x, v)
unfolding arm_bodies decode_arm find_arm holding new_slice_reader
this_arm_set tag c arms x v back size h =
    let (same, found) = none_set arms v (one_arm tag (wire c x)) h in
    let read : decode c (memory (at [] (wire c x))) ≡ (ok x, memory (at (wire c x) [])) =
      ap (λ body. decode c (memory (at [] body))) (sym (append-nil (wire c x)))
      ∙ back in_memory [] [] in
    one_set 0 tag (wire c x) found refl size
      (ap (λ out. this_arm out.0 (no_values arms)) read ∙ ap (λ r. ok (some x, r)) (sym same))

Setting-Decodes :
    (arms : Arms) (v : Opts arms)
    → IsTags (tags_of arms)
    → Setting arms v
    → Decodes (decode (union arms)) (wire (union arms)) v
unfolding decode wire
Setting-Decodes arms v h (all_unset f e) k front rest =
    rw (f, e) (decode_union-no_arm (tags_of arms) (no_values arms) (decode_arm arms) h k front rest)
Setting-Decodes arms v h (one_set i t body f g s d) k front rest = rw f (
    decode_union-one_arm (tags_of arms) (no_values arms) v (decode_arm arms) i t body h g
      (small_tag (tags_of arms) i t h g) s d k front rest)

mutual
  unfolding decode wire

  decodes : (c : Codec) (v : Val c) → IsCodec c → Fits c v → Decodes (decode c) (wire c) v
  decodes (primitive k) v w h = decode_primitive-Decodes k v h
  decodes (pointer c) v w h =
      decode_pointer-Decodes (decode c) (wire c) v (Behind-map _ _ (λ x hx. decodes c x w hx) v h)
  decodes byte_slice v w h = decode_bytes-Decodes v h
  decodes bool_slice v w h = decode_bools-Decodes v h
  decodes (string_slice sh) v w h = decode_strings-Decodes sh v h
  decodes (fixed_slice sh f) v w h = decode_fixeds-Decodes sh f v h
  decodes (varint_slice n) v w h = decode_varints-Decodes n v h
  decodes (varuint_slice n) v w h = decode_varuints-Decodes n v h
  decodes (collection sh c) v w h =
      decode_collection-Decodes (decode c) (wire c) (wire_min_bytes c) (zero_value c) (is_struct c)
        (is_zero_wire c) sh v (elements c v (λ x hx. decodes c x w hx) h.1)
        (λ none. All-map _ _ v (λ x hx. zero_wire c x none hx) h.1) h.0
  decodes (slice_of_ptr c) v w h =
      decode_slice_of_ptr-Decodes (decode c) (wire c) v
        (All-map _ _ v (Behind-map _ _ (λ x hx. decodes c x w hx)) h.0) h.1
  decodes (struct fs) v w h = elim (Bool-cases (has_primitive fs)) [
    | inl t ↦ rw t (direct_fields none_held 0 fs v w h)
    | inr f ↦ rw f (decode_all_fields fs v w h)
  ]
  decodes (map_of k c) v w (keys, values, once, size) =
      decode_map-Decodes k (decode c) (wire c) (wire_min_bytes c) v keys
        (elements_of_map c k v (λ x hx. decodes c x w hx) values) once size
  decodes (string_map p) v w h = decode_string_map-Decodes p v h
  decodes uint64_map v w h = decode_uint64_map-Decodes v h
  decodes (union arms) v w h = Setting-Decodes arms v w.0 (settings arms v w.1 h.0 h.1)

  decode_all_fields :
      (fs : Fields) (v : Vals fs)
      → AreFields fs
      → FitsFields fs v
      → Decodes (decode_fields fs) (wire_fields fs) v
  decode_all_fields no_fields v w h k front rest = rw append-nil
  decode_all_fields (field c fs) (v, vs) w h k front rest = rw (
    append_assoc,
    decodes c v w.0 h.0 k front (wire_fields fs vs ++ rest),
    decode_all_fields fs vs w.1 h.1 k (front ++ wire c v) rest,
    append_assoc,
  )
  decode_all_fields (skipped fs) vs w h k front rest = decode_all_fields fs vs w h k front rest

  direct_fields :
      (old : ℕ → List ℕ) (i : ℕ) (fs : Fields) (v : Vals fs)
      → AreFields fs
      → FitsFields fs v
      → Decodes (decode_direct_from old i fs) (wire_fields fs) v
  direct_fields old i no_fields v w h k front rest = rw append-nil
  direct_fields old i (field c fs) (v, vs) w h k front rest = rw (
    append_assoc,
    read_direct-Decodes (old i) c v (decode c) h.0 (decodes c v w.0 h.0) k front
        (wire_fields fs vs ++ rest),
    direct_fields old (suc i) fs vs w.1 h.1 k (front ++ wire c v) rest,
    append_assoc,
  )
  direct_fields old i (skipped fs) vs w h k front rest =
      direct_fields old (suc i) fs vs w h k front rest

  settings :
      (arms : Arms) (v : Opts arms)
      → AreArms arms
      → set_arms arms v ≤ 1
      → FitsOpts arms v
      → Setting arms v
  settings no_arms v w le h = nothing_set v
  settings (arm tag c arms) (none, vs) w le h = later_arm tag c arms vs (settings arms vs w.1 le h)
  settings (arm tag c arms) (some v, vs) w le (fits, size, h) =
      this_arm_set tag c arms v vs (decodes c v w.0 fits) size (omega arith)

-- For every codec that the scanner can make and every value of its type, DecodeTo into a fresh variable
-- reads the value's wire format back as that value, from memory and from a stream, whatever has been
-- read before it and whatever follows it, and stops right behind it. Keys of a map differ from each
-- other, and at most one arm of a union is set.
pub decode_lem :
    (c : Codec) (v : Val c)
    → IsCodec c
    → Fits c v
    → (k : Origin) (front rest : List ℕ)
    → decode c (holding k front (wire c v ++ rest)) ≡ (ok v, holding k (front ++ wire c v) rest)
decode_lem c v w h k front rest = decodes c v w h k front rest

-- The same of a struct's fields at their offsets, from a place on, with any memory in the target.
pub decode_direct_from-Decodes :
    (old : ℕ → List ℕ) (i : ℕ) (fs : Fields) (v : Vals fs)
    → AreFields fs
    → FitsFields fs v
    → Decodes (decode_direct_from old i fs) (wire_fields fs) v
decode_direct_from-Decodes old i fs v w h = direct_fields old i fs v w h
