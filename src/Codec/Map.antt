-- ===== src/Codec/Map.antt =====
-- The map codecs. A Go map is its entries, in the order in which `range` comes by them, which Go leaves
-- open: every theorem is for every order. The arena, from which the decoder takes the memory of keys
-- and values, does not show in the values.
pub mod Laws
pub mod Fast
pub mod Lookup
use binary.Codec.{KeyKind, KeyVal}
use binary.Prelude.{ℕ, zero, suc, ◌+◌, ◌&&◌, leb, ltb, length, if◌then◌else◌, Bool, true, false}
use binary.Prelude.{List, [], ◌∷◌, ◌++◌, Option, none, some}
use binary.Base.{Result, ok, err, M, ◌>>=◌, ◌>>◌, pure, next, wire_each}
use binary.Varint.{uvarint_bytes}
use binary.Encoder.{
  Encoder, write, write_uvarint, write_string, write_uint64, little_endian, has_buffer,
}
use binary.Decoder.{Decoder, read_count, read_uvarint, read_slice, read_uint64, ensure_elements}
use binary.Codec.Loops.{emit, encode_each}
use binary.Codec.Key.{same_key, write_key, read_key, check_map_key}
use binary.Decoder.Safety.{
  Safe, pure-Safe, fail-Safe, if-Safe, bind-Safe, then-Safe, check-Safe, by_source-Safe,
}
use binary.Codec.Key.{read_key-Safe}
use binary.Decoder.Safety.Calls.{read_count-Safe, ensure_elements-Safe}

module _ {K V : Type 0} (same : K → K → Bool) where
  -- `m[key]`
  pub get : List (K × V) → K → Option V
  get [] q = none
  get ((key, v) ∷ m) q = let rest = get m q in if same key q then some v else rest

  -- `m[key] = value`
  pub put : K → V → List (K × V) → List (K × V)
  put q w [] = (q, w) ∷ []
  put q w ((key, v) ∷ m) =
      let rest = put q w m in if same key q then (key, w) ∷ m else (key, v) ∷ rest

  -- `for i := 0; i < n; i++ { … m[key] = value }`
  unfoldable pub decode_entries :
      M Decoder K → M Decoder V → ℕ → List (K × V) → M Decoder (List (K × V))
  unfolding put
  decode_entries key value zero m = pure m
  decode_entries key value (suc n) m = do k ← key; v ← value; decode_entries key value n (put k v m)

pub encode_entry :
    {V : Type 0} (k : KeyKind) → (V → M Encoder (Unit {0})) → KeyVal k × V → M Encoder (Unit {0})
encode_entry k encode (key, v) = do write_key k key; encode v

-- `reflectMapCodec.EncodeTo`
pub encode_map :
    {V : Type 0} (k : KeyKind)
    → (V → M Encoder (Unit {0}))
    → List (KeyVal k × V)
    → M Encoder (Unit {0})
unfolding encode_entry
encode_map k encode m = do emit (write_uvarint (length m)); encode_each (encode_entry k encode) m

-- `reflectMapCodec.DecodeTo`, given `wireMinBytes` of the value's codec; that of a key is 1.
pub decode_map : {V : Type 0} (k : KeyKind) → ℕ → M Decoder V → M Decoder (List (KeyVal k × V))
unfolding decode_entries
decode_map k min decode = do
  n ← read_count
  let entry_min = 1 + min
  if ltb 1 n && ltb 0 entry_min then ensure_elements n entry_min else pure tt
  decode_entries (same_key k) (read_key k) decode n []

pub decode_entries-Safe :
    {K V : Type 0} (same : K → K → Bool) {key : M Decoder K} {value : M Decoder V} (n : ℕ)
    (m : List (K × V))
    → Safe key
    → Safe value
    → Safe (decode_entries same key value n m)
unfolding decode_entries
decode_entries-Safe same zero m hk hv = pure-Safe m
decode_entries-Safe same (suc n) m hk hv =
    bind-Safe hk λ k. bind-Safe hv λ v. decode_entries-Safe same n (put same k v m) hk hv

pub decode_map-Safe :
    {V : Type 0} (k : KeyKind) (min : ℕ) {decode : M Decoder V}
    → Safe decode
    → Safe (decode_map k min decode)
unfolding decode_map
decode_map-Safe k min h = bind-Safe read_count-Safe λ n.
    then-Safe (if-Safe _ (ensure_elements-Safe n (1 + min)) (pure-Safe tt))
      (decode_entries-Safe (same_key k) n [] (read_key-Safe k) h)
