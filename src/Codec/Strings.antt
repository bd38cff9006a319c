-- ===== src/Codec/Strings.antt =====
-- `stringSliceCodec`: slices and arrays of strings.
use binary.Prelude.{ℕ, ◌/◌, ◌≤◌, arith, length, All}
use binary.Prelude.{List, ◌++◌, append_assoc, leb, if◌then◌else◌, ◌&&◌}
use binary.Base.{ok, M, ◌>>=◌, ◌>>◌, wire_each}
use binary.Varint.{uvarint_bytes}
use binary.Encoder.{Encoder, write, write_string, has_buffer}
use binary.Encoder.Laws.{write-write, write_string_lem}
use binary.Stream.{max_int}
use binary.Decoder.{Decoder, read_count, ensure_available, resize_slice, read_string, by_source}
use binary.Decoder.Laws.{in_memory, holding, read_slice-holding, read_string_lem}
use binary.Decoder.Checks.{read_count-holding, ensure_available-holding, resize_slice_fits}
use binary.Decoder.Checks.{by_source-holding}
use binary.Codec.{Shape, slice_of, array_of}
use binary.Codec.Count.{count_bytes, write_count, write_count_lem, FitsShape}
use binary.Codec.Bytes.{wire_bytes_lem, wire_bytes, length-wire_bytes}
use binary.Codec.Loops.{emit, Encodes, Decodes, encode_each, encode_each-Encodes, decode_each}
use binary.Codec.Loops.{decode_each-Decodes, All-of, All-map}
use binary.Codec.Varints.Laws.{room_for}
use binary.Decoder.Safety.{Safe, bind-Safe, then-Safe, by_source-Safe}
use binary.Codec.Loops.{decode_each-Safe}
use binary.Decoder.Safety.Calls.{
  read_string-Safe, read_count-Safe, ensure_available-Safe, resize_slice-Safe,
}

unfoldable pub wire_strings : Shape → List (List ℕ) → List ℕ
wire_strings sh v = count_bytes sh (length v) ++ wire_each wire_bytes v

each_string : Shape → List (List ℕ) → M Encoder (Unit {0})
each_string sh v = do write_count sh (length v); encode_each (λ x. emit (write_string x)) v

-- From 8 strings on a buffer gets all of it in one write.
pub encode_strings : Shape → List (List ℕ) → M Encoder (Unit {0})
unfolding each_string wire_strings
encode_strings sh v e =
    if leb 8 (length v) && has_buffer e
    then (ok tt, write (wire_strings sh v) e)
    else each_string sh v e

-- `rv.Index(i)` holds the empty string, which `readString` compares with.
unfoldable pub decode_strings : Shape → M Decoder (List (List ℕ))
decode_strings (slice_of size) = do
  n ← read_count
  ensure_available n
  resize_slice size n
  decode_each read_string n
decode_strings (array_of m) =
    by_source (decode_each read_string m) (do ensure_available m; decode_each read_string m)

abbrev pub FitsStrings : Shape → List (List ℕ) → Type 0
FitsStrings sh v = FitsShape sh v × All (λ x. length x ≤ max_int / 2) v

write_string-Encodes : (x : List ℕ) → Encodes (λ x. emit (write_string x)) wire_bytes x
write_string-Encodes x e = rw (write_string_lem x e, wire_bytes_lem x)

each_string-Encodes :
    (sh : Shape) (v : List (List ℕ)) → Encodes (each_string sh) (wire_strings sh) v
unfolding each_string wire_strings
each_string-Encodes sh v e = rw (
  write_count_lem,
  encode_each-Encodes (λ x. emit (write_string x)) wire_bytes v (All-of _ v write_string-Encodes),
  write-write,
)

pub encode_strings-Encodes :
    (sh : Shape) (v : List (List ℕ)) → Encodes (encode_strings sh) (wire_strings sh) v
unfolding encode_strings
encode_strings-Encodes sh v e = ground (arith, each_string-Encodes sh v e)

read_string-Decodes : (x : List ℕ) → length x ≤ max_int / 2 → Decodes read_string wire_bytes x
read_string-Decodes x h k front rest = rw (
  read_string_lem,
  wire_bytes_lem x,
  append_assoc,
  read_slice-holding k x front rest h,
  append_assoc,
)

pub decode_strings-Decodes :
    (sh : Shape) (v : List (List ℕ))
    → FitsStrings sh v
    → Decodes (decode_strings sh) (wire_strings sh) v
unfolding decode_strings wire_strings count_bytes
decode_strings-Decodes (slice_of size) v h k front rest =
    let front' = front ++ uvarint_bytes (length v) in
    let body : List ℕ = wire_each wire_bytes v ++ rest in
    rw (
      append_assoc,
      read_count-holding k (length v) front body (omega arith),
      ensure_available-holding k (length v) front' body
          (room_for wire_bytes v rest length-wire_bytes),
      resize_slice_fits size (length v) (holding k front' body) h.0.0 h.0.1,
      decode_each-Decodes read_string wire_bytes v (All-map _ _ v read_string-Decodes h.1) k front'
          rest,
      append_assoc,
    )
decode_strings-Decodes (array_of m) v h k front rest =
    let body : List ℕ = wire_each wire_bytes v ++ rest in
    let each =
      decode_each-Decodes read_string wire_bytes v (All-map _ _ v read_string-Decodes h.1) in
    rw (← h.0) (
      by_source-holding (decode_each read_string (length v))
        (do ensure_available (length v); decode_each read_string (length v)) front body
        (λ k. (ok v, holding k (front ++ wire_each wire_bytes v) rest)) (λ k. each k front rest)
        (rw
          (ensure_available-holding in_memory (length v) front body
            (room_for wire_bytes v rest length-wire_bytes))
          (each in_memory front rest))
        k)

pub decode_strings-Safe : (sh : Shape) → Safe (decode_strings sh)
unfolding decode_strings
decode_strings-Safe (slice_of size) = bind-Safe read_count-Safe λ n.
    then-Safe (ensure_available-Safe n)
      (then-Safe (resize_slice-Safe size n) (decode_each-Safe n read_string-Safe))
decode_strings-Safe (array_of m) =
    let each = decode_each-Safe m read_string-Safe in
    by_source-Safe each (then-Safe (ensure_available-Safe m) each)
