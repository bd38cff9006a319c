-- ===== src/Codec/Map/Fast/Laws.antt =====
-- The fast map codecs against the wire format of `reflectMapCodec`.
use binary.Codec.{
  string_key, uint_key, i64, Plain, PlainVal, plain_string, plain_bytes, plain_uint64,
}
use binary.Prelude.{ℕ, ◌*◌, ◌/◌, ◌≤◌, ◌≡◌, refl, arith, length, All, leb, le→ltb_false}
use binary.Prelude.{List, [], ◌∷◌, ◌++◌, append_assoc, length-append, ◌&&◌}
use binary.Base.{ok, ◌>>◌, wire_each, IsU64}
use binary.Varint.{uvarint_bytes}
use binary.Varint.Shape.{length-uvarint_bytes}
use binary.Encoder.{Encoder, write, write_uvarint, little_endian, has_buffer}
use binary.Encoder.Laws.{write_uvarint_lem, write_string_lem, write-write}
use binary.Stream.{max_int}
use binary.Decoder.{read_uvarint}
use binary.Decoder.Laws.{read_uvarint-holding, read_slice-holding, length-little_endian}
use binary.Decoder.Checks.{read_count-holding, ensure_elements-holding}
use binary.Codec.Loops.{emit, Decodes, All-map, All-of}
use binary.Codec.Varints.Laws.{length-wire_each}
use binary.Codec.Delivery.{Delivers, Delivers-of_write, Delivers-either}
use binary.Codec.Key.{max_map_key_length, check_map_key}
use binary.Codec.Key.Laws.{FitsKey, string_wire_key, uint64_wire_key}
use binary.Codec.Map.{encode_map}
use binary.Codec.Map.Laws.{
  wire_entry, wire_map, IsMap, encode_map-Delivers, decode_entries-Decodes, put_all-IsMap,
}
use binary.Codec.Map.Fast.{plain_value_bytes, write_plain_value}
use binary.Codec.Map.Fast.{
  read_plain_value, check_keys, string_entry_bytes, encode_string_map, decode_string_map,
}
use binary.Codec.Map.Fast.{uint64_entry_bytes, encode_uint64_map, decode_uint64_map}

abbrev pub FitsPlain : (p : Plain) → PlainVal p → Type 0
FitsPlain plain_string v = length v ≤ max_int / 2
FitsPlain plain_bytes v = length v ≤ max_int / 2
FitsPlain plain_uint64 v = IsU64 v

write_plain_value-Delivers :
    (p : Plain) (v : PlainVal p) → Delivers (write_plain_value p v) (plain_value_bytes p v)
unfolding write_plain_value plain_value_bytes
write_plain_value-Delivers plain_string v = Delivers-of_write _ _ (λ e. rw write_string_lem)
write_plain_value-Delivers plain_bytes v =
    Delivers-of_write _ _ (λ e. rw (write_uvarint_lem, write-write))
write_plain_value-Delivers plain_uint64 v = Delivers-of_write _ _ (λ e. rw write_uvarint_lem)

read_plain_value-Decodes :
    (p : Plain) (v : PlainVal p)
    → FitsPlain p v
    → Decodes (read_plain_value p) (plain_value_bytes p) v
unfolding read_plain_value plain_value_bytes
read_plain_value-Decodes plain_string v h k front rest =
    rw (append_assoc, read_slice-holding k v front rest h, append_assoc)
read_plain_value-Decodes plain_bytes v h k front rest =
    rw (append_assoc, read_slice-holding k v front rest h, append_assoc)
read_plain_value-Decodes plain_uint64 v h k front rest = read_uvarint-holding k v front rest h

length-plain_value_bytes : (p : Plain) (v : PlainVal p) → 1 ≤ length (plain_value_bytes p v)
unfolding plain_value_bytes
length-plain_value_bytes plain_string v =
    rw length-append (omega (arith, length-uvarint_bytes (length v)))
length-plain_value_bytes plain_bytes v =
    rw length-append (omega (arith, length-uvarint_bytes (length v)))
length-plain_value_bytes plain_uint64 v = (length-uvarint_bytes v).0

-- A map whose keys and values can be written.
abbrev pub FitsStringMap : (p : Plain) → List (List ℕ × PlainVal p) → Type 0
FitsStringMap p m =
    All (λ e. FitsKey string_key e.0) m
    × All (λ e. FitsPlain p e.1) m
    × IsMap string_key m
    × (length m ≤ max_int)

check_keys-ok :
    {E : Type 0} (m : List (List ℕ × E)) (e : Encoder)
    → All (λ e. FitsKey string_key e.0) m
    → check_keys m e ≡ (ok tt, e)
unfolding check_keys check_map_key
check_keys-ok [] e h = refl
check_keys-ok ((key, v) ∷ m) e h =
    rw (le→ltb_false max_map_key_length (length key) h.0, check_keys-ok m e h.1)

wire_each-string_entry :
    (p : Plain) (m : List (List ℕ × PlainVal p))
    → wire_each (string_entry_bytes p) m ≡ wire_each (wire_entry string_key (plain_value_bytes p)) m
unfolding wire_each wire_entry string_entry_bytes little_endian
wire_each-string_entry p [] = refl
wire_each-string_entry p ((key, v) ∷ m) = rw (string_wire_key, wire_each-string_entry p m)

length-string_entry :
    (p : Plain) (e : List ℕ × PlainVal p)
    → 3 ≤ length (wire_entry string_key (plain_value_bytes p) e)
unfolding wire_entry
length-string_entry p (key, v) =
    rw (length-append, string_wire_key, length-append, length-little_endian)
      (omega (arith, length-plain_value_bytes p v))

length-uint64_entry : (e : ℕ × ℕ) → 9 ≤ length (wire_entry (uint_key i64) uvarint_bytes e)
unfolding wire_entry
length-uint64_entry (key, v) =
    rw (length-append, uint64_wire_key, length-little_endian)
      (omega (arith, length-uvarint_bytes v))

encode_slow-Delivers :
    (p : Plain) (m : List (List ℕ × PlainVal p))
    → All (λ e. FitsKey string_key e.0) m
    → Delivers
        (encode_map string_key (write_plain_value p) m)
        (wire_map string_key (plain_value_bytes p) m)
encode_slow-Delivers p m h =
    encode_map-Delivers string_key (write_plain_value p) (plain_value_bytes p) m h
      (All-of _ m (λ e. write_plain_value-Delivers p e.1))

pub encode_string_map-Delivers :
    (p : Plain) (m : List (List ℕ × PlainVal p))
    → All (λ e. FitsKey string_key e.0) m
    → Delivers (encode_string_map p m) (wire_map string_key (plain_value_bytes p) m)
unfolding encode_string_map wire_map
encode_string_map-Delivers p m h =
    Delivers-either (λ e. leb 8 (length m) && has_buffer e)
      (do
        check_keys m
        emit (write (uvarint_bytes (length m) ++ wire_each (string_entry_bytes p) m)))
      (encode_map string_key (write_plain_value p) m) (wire_map string_key (plain_value_bytes p) m)
      (Delivers-of_write _ _ (λ e. rw (check_keys-ok m e h, wire_each-string_entry p m)))
      (encode_slow-Delivers p m h)

pub decode_string_map-Decodes :
    (p : Plain) (m : List (List ℕ × PlainVal p))
    → FitsStringMap p m
    → Decodes (decode_string_map p) (wire_map string_key (plain_value_bytes p)) m
unfolding decode_string_map wire_map
decode_string_map-Decodes p m (keys, values, once, size) o front rest =
    let front' : List ℕ = front ++ uvarint_bytes (length m) in
    let body : List ℕ = wire_each (wire_entry string_key (plain_value_bytes p)) m ++ rest in
    let room : length m * 3 ≤ length body =
      rw (length-append (wire_each (wire_entry string_key (plain_value_bytes p)) m) rest) (
        omega (
          arith,
          length-wire_each (wire_entry string_key (plain_value_bytes p)) 3 m
              (All-of _ m (length-string_entry p)),
        )) in
    rw (
      append_assoc,
      read_count-holding o (length m) front body size,
      ensure_elements-holding o (length m) 3 front' body room,
      decode_entries-Decodes string_key (read_plain_value p) (plain_value_bytes p) [] m keys
          (All-map _ _ m (λ e h. read_plain_value-Decodes p e.1 h) values) o front' rest,
      put_all-IsMap string_key m once,
      append_assoc,
    )

-- A map of uint64 to uint64.
abbrev pub FitsUint64Map : List (ℕ × ℕ) → Type 0
FitsUint64Map m =
    All (λ e. FitsKey (uint_key i64) e.0) m
    × All (λ e. IsU64 e.1) m
    × IsMap (uint_key i64) m
    × (length m ≤ max_int)

wire_each-uint64_entry :
    (m : List (ℕ × ℕ))
    → wire_each uint64_entry_bytes m ≡ wire_each (wire_entry (uint_key i64) uvarint_bytes) m
unfolding wire_each wire_entry uint64_entry_bytes
wire_each-uint64_entry [] = refl
wire_each-uint64_entry ((key, v) ∷ m) = rw (uint64_wire_key, wire_each-uint64_entry m)

pub encode_uint64_map-Delivers :
    (m : List (ℕ × ℕ))
    → All (λ e. FitsKey (uint_key i64) e.0) m
    → Delivers (encode_uint64_map m) (wire_map (uint_key i64) uvarint_bytes m)
unfolding encode_uint64_map wire_map
encode_uint64_map-Delivers m h =
    Delivers-either (λ e. leb 8 (length m) && has_buffer e)
      (emit (write (uvarint_bytes (length m) ++ wire_each uint64_entry_bytes m)))
      (encode_map (uint_key i64) (λ v. emit (write_uvarint v)) m)
      (wire_map (uint_key i64) uvarint_bytes m)
      (Delivers-of_write _ _ (λ e. rw (wire_each-uint64_entry m)))
      (encode_map-Delivers (uint_key i64) (λ v. emit (write_uvarint v)) uvarint_bytes m h
        (All-of _ m (λ e. Delivers-of_write _ _ (λ s. rw write_uvarint_lem))))

pub decode_uint64_map-Decodes :
    (m : List (ℕ × ℕ))
    → FitsUint64Map m
    → Decodes decode_uint64_map (wire_map (uint_key i64) uvarint_bytes) m
unfolding decode_uint64_map wire_map
decode_uint64_map-Decodes m (keys, values, once, size) o front rest =
    let front' : List ℕ = front ++ uvarint_bytes (length m) in
    let body : List ℕ = wire_each (wire_entry (uint_key i64) uvarint_bytes) m ++ rest in
    let room : length m * 9 ≤ length body =
      rw (length-append (wire_each (wire_entry (uint_key i64) uvarint_bytes) m) rest) (
        omega (
          arith,
          length-wire_each (wire_entry (uint_key i64) uvarint_bytes) 9 m
              (All-of _ m length-uint64_entry),
        )) in
    rw (
      append_assoc,
      read_count-holding o (length m) front body size,
      ensure_elements-holding o (length m) 9 front' body room,
      decode_entries-Decodes (uint_key i64) read_uvarint uvarint_bytes [] m keys
          (All-map _ _ m (λ e h k f r. read_uvarint-holding k e.1 f r h) values) o front' rest,
      put_all-IsMap (uint_key i64) m once,
      append_assoc,
    )
