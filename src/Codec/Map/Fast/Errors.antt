-- ===== src/Codec/Map/Fast/Errors.antt =====
-- A map with a string for a key that is too long.
use binary.Codec.{string_key, Plain, PlainVal, plain_string, plain_bytes, plain_uint64}
use binary.Prelude.{
  ℕ, ◌≤◌, ◌<◌, ◌≡◌, ◌⊎◌, inl, inr, refl, arith, length, List, [], ◌∷◌, true, Bool-cases,
}
use binary.Prelude.{ltb, leb, ◌&&◌, lt→ltb, le→ltb_false, ltb_false→le}
use binary.Base.{ok, err, map_key_too_long}
use binary.Encoder.{Encoder, write, has_buffer}
use binary.Codec.Loops.{encode_each}
use binary.Codec.Key.{check_map_key, max_map_key_length}
use binary.Codec.Key.Laws.{write_key-long, write_key-Encodes, wire_key}
use binary.Codec.Map.{encode_entry, encode_map}
use binary.Codec.Map.Fast.{check_keys, write_plain_value, encode_string_map}

-- Some key is longer than `maxMapKeyLength`.
abbrev pub LongKey : {A : Type 0} → List (List ℕ × A) → Type 0
LongKey [] = ⊥
LongKey ((key, v) ∷ m) = (max_map_key_length < length key) ⊎ LongKey m

-- The key at the front is too long, or one behind it is.
long_or_later :
    {A : Type 0} (key : List ℕ) (v : A) (m : List (List ℕ × A))
    → LongKey ((key, v) ∷ m)
    → (max_map_key_length < length key) ⊎ ((length key ≤ max_map_key_length) × LongKey m)
long_or_later key v m (inl long) = inl long
long_or_later key v m (inr later) = elim (Bool-cases (ltb max_map_key_length (length key))) [
  | inl t ↦ inl (ground arith)
  | inr f ↦ inr (ltb_false→le max_map_key_length (length key) f, later)
]

check_keys-long :
    {A : Type 0} (m : List (List ℕ × A)) (e : Encoder)
    → LongKey m
    → check_keys m e ≡ (err map_key_too_long, e)
unfolding check_keys check_map_key
check_keys-long [] e h = absurd h
check_keys-long ((key, v) ∷ m) e h = elim (long_or_later key v m h) [
  | inl long ↦ rw (lt→ltb max_map_key_length (length key) long)
  | inr later ↦
      rw (le→ltb_false max_map_key_length (length key) later.0, check_keys-long m e later.1)
]

write_plain_value-ok :
    (p : Plain) (v : PlainVal p) (e : Encoder)
    → (e' : Encoder) × (write_plain_value p v e ≡ (ok tt, e'))
unfolding write_plain_value
write_plain_value-ok plain_string v e = (_, refl)
write_plain_value-ok plain_bytes v e = (_, refl)
write_plain_value-ok plain_uint64 v e = (_, refl)

-- What stands in the loop before the entry with the long key is written.
entries-long :
    (p : Plain) (m : List (List ℕ × PlainVal p)) (e : Encoder)
    → LongKey m
    → (encode_each (encode_entry string_key (write_plain_value p)) m e).0 ≡ err map_key_too_long
unfolding encode_each encode_entry
entries-long p [] e h = absurd h
entries-long p ((key, v) ∷ m) e h = elim (long_or_later key v m h) [
  | inl long ↦ rw (write_key-long key long e)
  | inr later ↦
      let (e', written) = write_plain_value-ok p v (write (wire_key string_key key) e) in
      rw (write_key-Encodes string_key key later.0 e, written, entries-long p m e' later.1)
]

-- Where a key of a map is longer than 65,535 bytes, EncodeTo of the codec for maps of strings returns
-- the error for that, on every encoder and in every order of the entries.
pub encode_string_map-long :
    (p : Plain) (m : List (List ℕ × PlainVal p)) (e : Encoder)
    → LongKey m
    → (encode_string_map p m e).0 ≡ err map_key_too_long
unfolding encode_string_map encode_map
encode_string_map-long p m e h = elim (Bool-cases (leb 8 (length m) && has_buffer e)) [
  | inl t ↦ rw (t, check_keys-long m e h)
  | inr f ↦ rw (f, entries-long p m _ h)
]

-- Where a key of a map of eight entries or more is longer than 65,535 bytes, and the encoder writes to a
-- buffer and has not failed, EncodeTo of the codec for maps of strings has written nothing when it
-- returns the error for that.
encode_string_map-untouched :
    (p : Plain) (m : List (List ℕ × PlainVal p)) (e : Encoder)
    → LongKey m
    → 8 ≤ length m
    → has_buffer e ≡ true
    → encode_string_map p m e ≡ (err map_key_too_long, e)
unfolding encode_string_map
encode_string_map-untouched p m e h many buffered =
    let both : (leb 8 (length m) && has_buffer e) ≡ true = rw buffered (ground arith) in
    rw (both, check_keys-long m e h)
