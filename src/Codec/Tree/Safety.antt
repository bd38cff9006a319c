-- ===== src/Codec/Tree/Safety.antt =====
-- DecodeTo of every codec on any input.
use binary.Prelude.{ℕ, zero, suc, ◌<◌, ◌≢◌, refl, arith, length, List}
use binary.Base.{Result, ok, err, panic}
use binary.Reader.{new_slice_reader}
use binary.Decoder.{Decoder, memory}
use binary.Decoder.Safety.{Safe, Moves, IsSound, pure-Safe, if-Safe, bind-Safe}
use binary.Codec.{
  Codec, Fields, Arms, primitive, pointer, byte_slice, bool_slice, string_slice, fixed_slice,
  varint_slice, varuint_slice, collection, slice_of_ptr, struct, no_fields, field, skipped,
}
use binary.Codec.{map_of, string_map, uint64_map, union, no_arms, arm, zero_value, no_values}
use binary.Codec.Estimates.{is_zero_wire, wire_min_bytes}
use binary.Codec.Primitive.{decode_primitive-Safe}
use binary.Codec.Bytes.Safety.{decode_bytes-Safe, decode_bools-Safe}
use binary.Codec.Varints.Safety.{decode_varints-Safe, decode_varuints-Safe}
use binary.Codec.Strings.{decode_strings-Safe}
use binary.Codec.Floats.{decode_fixeds-Safe}
use binary.Codec.Collection.{decode_collection-Safe}
use binary.Codec.Pointer.{decode_pointer-Safe, decode_slice_of_ptr-Safe}
use binary.Codec.Map.{decode_map-Safe}
use binary.Codec.Map.Fast.{decode_string_map-Safe, decode_uint64_map-Safe}
use binary.Codec.Union.Safety.{decode_union-Safe}
use binary.Codec.Tree.{decode, decode_fields, decode_arm, is_struct, tags_of, this_arm, other_arm}
use binary.Codec.Tree.{decode_direct_from, has_primitive, none_held}
use binary.Codec.Offsets.Safety.{read_direct-Safe}
use binary.Codec.Tree.Fits.{IsCodec, AreFields, AreArms}

this_arm-returns : {A B : Type 0} (out : Result A) (vs : B) → out ≢ panic → this_arm out vs ≢ panic
this_arm-returns (ok v) vs h = λ p. cc
this_arm-returns (err x) vs h = λ p. cc
this_arm-returns panic vs h = λ p. h refl

other_arm-returns : {A B : Type 0} (out : Result B) → out ≢ panic → other_arm {A = A} out ≢ panic
other_arm-returns (ok v) h = λ p. cc
other_arm-returns (err x) h = λ p. cc
other_arm-returns panic h = λ p. h refl

mutual
  unfolding decode decode_fields decode_direct_from decode_arm new_slice_reader

  codec-Safe : (c : Codec) → IsCodec c → Safe (decode c)
  codec-Safe (primitive k) h = decode_primitive-Safe k
  codec-Safe (pointer c) h = decode_pointer-Safe (codec-Safe c h)
  codec-Safe byte_slice h = decode_bytes-Safe
  codec-Safe bool_slice h = decode_bools-Safe
  codec-Safe (string_slice sh) h = decode_strings-Safe sh
  codec-Safe (fixed_slice sh f) h = decode_fixeds-Safe sh f
  codec-Safe (varint_slice w) h = decode_varints-Safe w
  codec-Safe (varuint_slice w) h = decode_varuints-Safe w
  codec-Safe (collection sh c) h =
      decode_collection-Safe (codec-Safe c h) (zero_value c) (is_struct c) (is_zero_wire c)
        (wire_min_bytes c) sh
  codec-Safe (slice_of_ptr c) h = decode_slice_of_ptr-Safe (codec-Safe c h)
  codec-Safe (struct fs) h =
      if-Safe (has_primitive fs) (direct-Safe none_held 0 fs h) (fields-Safe fs h)
  codec-Safe (map_of k c) h = decode_map-Safe k (wire_min_bytes c) (codec-Safe c h)
  codec-Safe (string_map p) h = decode_string_map-Safe p
  codec-Safe uint64_map h = decode_uint64_map-Safe
  codec-Safe (union arms) h =
      decode_union-Safe (tags_of arms) (no_values arms) (decode_arm arms) h.0 (arms-return arms h.1)

  fields-Safe : (fs : Fields) → AreFields fs → Safe (decode_fields fs)
  fields-Safe no_fields h = pure-Safe tt
  fields-Safe (field c fs) h =
      bind-Safe (codec-Safe c h.0) λ v. bind-Safe (fields-Safe fs h.1) λ vs. pure-Safe (v, vs)
  fields-Safe (skipped fs) h = fields-Safe fs h

  direct-Safe :
      (old : ℕ → List ℕ) (i : ℕ) (fs : Fields) → AreFields fs → Safe (decode_direct_from old i fs)
  direct-Safe old i no_fields h = pure-Safe tt
  direct-Safe old i (field c fs) h =
      bind-Safe (read_direct-Safe (old i) c (codec-Safe c h.0))
        λ v. bind-Safe (direct-Safe old (suc i) fs h.1) λ vs. pure-Safe (v, vs)
  direct-Safe old i (skipped fs) h = direct-Safe old (suc i) fs h

  arms-return :
      (arms : Arms)
      → AreArms arms
      → (i : ℕ) (body : List ℕ) → i < length (tags_of arms)
      → decode_arm arms i body ≢ panic
  arms-return no_arms h i body lt = absurd (omega arith)
  arms-return (arm tag c arms) h zero body lt =
      this_arm-returns _ (no_values arms)
        ((codec-Safe c h.0).moves (memory (new_slice_reader body)) (omega arith)).returns
  arms-return (arm tag c arms) h (suc i) body lt =
      other_arm-returns _ (arms-return arms h.1 i body (omega arith))

-- DecodeTo of every codec that the scanner makes, on any bytes, from a decoder in memory whose position
-- is inside its buffer or from a stream, does not panic, whatever it returns. In memory it keeps the buffer
-- and leaves the position not before where it was and not past the end; from a stream it leaves no
-- more bytes than there were and the same error after them.
pub decode-Moves : (c : Codec) (d : Decoder) → IsCodec c → IsSound d → Moves d (decode c d)
decode-Moves c d h v = (codec-Safe c h).moves d v
