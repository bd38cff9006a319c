-- ===== src/Codec/Written.antt =====
-- codecs.go: EncodeTo against the wire format.
use binary.Prelude.{◌≡◌}
use binary.Encoder.{Encoder, write}
use binary.Codec.{
  Codec, Fields, primitive, pointer, byte_slice, bool_slice, string_slice, fixed_slice,
}
use binary.Codec.{
  varint_slice, varuint_slice, collection, slice_of_ptr, struct, no_fields, field, skipped,
}
use binary.Codec.{Val, Vals}
use binary.Codec.Primitive.{encode_primitive-Encodes}
use binary.Codec.Bytes.{encode_bytes-Encodes, encode_bools-Encodes}
use binary.Codec.Varints.Laws.{encode_varints-Encodes, encode_varuints-Encodes}
use binary.Codec.Strings.{encode_strings-Encodes}
use binary.Codec.Floats.Laws.{encode_fixeds-Encodes}
use binary.Codec.Collection.{encode_collection-Delivers}
use binary.Codec.Pointer.{encode_pointer-Delivers}
use binary.Codec.Pointer.{encode_slice_of_ptr-Delivers, Behind-map}
use binary.Codec.Loops.{All-map}
use binary.Codec.Tree.{encode, encode_fields, arm_encoders, wire, wire_fields}
use binary.Codec.Tree.{arm_bodies}
use binary.Codec.Tree.Fits.{Fits, FitsFields, FitsOpts, IsCodec, AreFields, AreArms}
use binary.Prelude.{refl, none, some}
use binary.Codec.{map_of, string_map, uint64_map, union, Arms, no_arms, arm, Opts}
use binary.Codec.Delivery.{Delivers, Delivers-of_write, Delivers-then, Delivers-nil, finish, kept}
use binary.Codec.Map.Laws.{encode_map-Delivers}
use binary.Codec.Map.Fast.Laws.{encode_string_map-Delivers}
use binary.Codec.Map.Fast.Laws.{encode_uint64_map-Delivers}
use binary.Codec.Union.{find_arm}
use binary.Codec.Union.Laws.{AgreeArms, find_arm-Agree, encode_choice-Delivers}
use binary.Codec.Selection.{find_arm-one}

mutual
  unfolding encode wire

  delivers : (c : Codec) (v : Val c) → IsCodec c → Fits c v → Delivers (encode c v) (wire c v)
  delivers (primitive k) v w h = Delivers-of_write _ _ (encode_primitive-Encodes k v)
  delivers (pointer c) v w h =
      encode_pointer-Delivers (encode c) (wire c) v (Behind-map _ _ (λ x hx. delivers c x w hx) v h)
  delivers byte_slice v w h = Delivers-of_write _ _ (encode_bytes-Encodes v)
  delivers bool_slice v w h = Delivers-of_write _ _ (encode_bools-Encodes v)
  delivers (string_slice sh) v w h = Delivers-of_write _ _ (encode_strings-Encodes sh v)
  delivers (fixed_slice sh f) v w h = Delivers-of_write _ _ (encode_fixeds-Encodes sh f v)
  delivers (varint_slice n) v w h = Delivers-of_write _ _ (encode_varints-Encodes v)
  delivers (varuint_slice n) v w h = Delivers-of_write _ _ (encode_varuints-Encodes n v w)
  delivers (collection sh c) v w h =
      encode_collection-Delivers sh (encode c) (wire c) v
        (All-map _ _ v (λ x hx. delivers c x w hx) h.1)
  delivers (slice_of_ptr c) v w h =
      encode_slice_of_ptr-Delivers (encode c) (wire c) v
        (All-map _ _ v (Behind-map _ _ (λ x hx. delivers c x w hx)) h.0)
  delivers (struct fs) v w h = fields_delivered fs v w h
  delivers (map_of k c) v w (keys, values, once, size) =
      encode_map-Delivers k (encode c) (wire c) v keys
        (All-map _ _ v (λ x hx. delivers c x.1 w hx) values)
  delivers (string_map p) v w (keys, values, once, size) = encode_string_map-Delivers p v keys
  delivers uint64_map v w (keys, values, once, size) = encode_uint64_map-Delivers v keys
  delivers (union arms) v w h =
      encode_choice-Delivers (find_arm (arm_encoders arms v)) (find_arm (arm_bodies arms v))
        (find_arm-Agree _ _ (arms_delivered arms v w.1 h.1)) (find_arm-one arms v h.0)

  fields_delivered :
      (fs : Fields) (v : Vals fs)
      → AreFields fs
      → FitsFields fs v
      → Delivers (encode_fields fs v) (wire_fields fs v)
  fields_delivered no_fields v w h = Delivers-nil
  fields_delivered (field c fs) (v, vs) w h =
      Delivers-then (encode c v) (encode_fields fs vs) (wire c v) (wire_fields fs vs)
        (delivers c v w.0 h.0) (fields_delivered fs vs w.1 h.1)
  fields_delivered (skipped fs) vs w h = fields_delivered fs vs w h

  arms_delivered :
      (arms : Arms) (v : Opts arms)
      → AreArms arms
      → FitsOpts arms v
      → AgreeArms (arm_encoders arms v) (arm_bodies arms v)
  arms_delivered no_arms v w h = tt
  arms_delivered (arm tag c arms) (none, vs) w h = arms_delivered arms vs w.1 h
  arms_delivered (arm tag c arms) (some v, vs) w (fits, size, h) =
      (refl, delivers c v w.0 fits, arms_delivered arms vs w.1 h)

-- For every codec that the scanner can make and every value of its type, EncodeTo ends, with the check
-- of the encoder's error that Encode makes after it, as one Write of the value's wire format and that
-- check do: bulk paths and element loops agree on every writer, one that has failed or fails on the way
-- included. At most one arm of a union is set.
pub encode_lem :
    (c : Codec) (v : Val c)
    → IsCodec c
    → Fits c v
    → (e : Encoder) → finish (encode c v) e ≡ kept (write (wire c v) e)
encode_lem c v w h e = delivers c v w h e
