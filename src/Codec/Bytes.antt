-- ===== src/Codec/Bytes.antt =====
-- `byteSliceCodec` and `boolSliceCodec`.
pub mod Safety
use binary.Prelude.{◌<◌}
use binary.Base.{Error, Result, err, panic, eof, next}
use binary.Decoder.Checks.{ensure_available-short}
use binary.Stream.{max_int}
use binary.Prelude.{ℕ, ◌≤◌, ◌≡◌, refl, ap, arith, length, map}
use binary.Prelude.{
  List, [], ◌∷◌, ◌++◌, append_assoc, append-nil, length-append, length-map, Bool, true, false, not,
}
use binary.Prelude.{◌==◌, suc-eq-zero, ltb, if◌then◌else◌}
use binary.Base.{ok, M, ◌>>=◌, ◌>>◌, pure}
use binary.Prelude.Int.{pos}
use binary.Varint.{uvarint_bytes}
use binary.Varint.Shape.{length-uvarint_bytes}
use binary.Encoder.{Encoder, write, write_uvarint}
use binary.Encoder.Laws.{write-write, write_uvarint_lem}
use binary.Decoder.{Decoder, read_count, slice, ensure_available, resize_slice}
use binary.Decoder.{read_into, by_source, max_alloc}
use binary.Decoder.Laws.{Origin, in_memory, holding, slice-holding}
use binary.Decoder.Checks.{read_count-holding, ensure_available-holding, resize_slice_fits}
use binary.Decoder.Checks.{read_into-holding, by_source-holding}
use binary.Codec.Loops.{emit, Encodes, Decodes}

unfoldable pub encode_bytes : List ℕ → M Encoder (Unit {0})
encode_bytes b = do emit (write_uvarint (length b)); emit (write b)

unfoldable pub bytes_from_stream : ℕ → M Decoder (List ℕ)
bytes_from_stream n = if n == 0 then pure [] else slice (pos n)

-- The part that reads `n` elements of one byte in memory, for both codecs.
unfoldable pub bytes_in_memory : ℕ → M Decoder (List ℕ)
bytes_in_memory n = do ensure_available n; resize_slice 1 n; if n == 0 then pure [] else read_into n

unfoldable pub decode_bytes : M Decoder (List ℕ)
unfolding bytes_from_stream bytes_in_memory
decode_bytes = do n ← read_count; by_source (bytes_from_stream n) (bytes_in_memory n)

-- What both codecs write for `n` one-byte elements: the number of them, and the bytes.
unfoldable pub wire_bytes : List ℕ → List ℕ
wire_bytes b = uvarint_bytes (length b) ++ b

-- A slice of one-byte elements that can be in memory.
abbrev pub FitsBytes : {A : Type 0} → List A → Type 0
FitsBytes b = length b ≤ max_alloc

pub encode_bytes-Encodes : (b : List ℕ) → Encodes encode_bytes wire_bytes b
unfolding encode_bytes wire_bytes
encode_bytes-Encodes b e = rw (write_uvarint_lem, write-write)

pub bytes_in_memory-holding :
    (b front rest : List ℕ)
    → FitsBytes b
    → bytes_in_memory (length b) (holding in_memory front (b ++ rest))
      ≡ (ok b, holding in_memory (front ++ b) rest)
unfolding bytes_in_memory
bytes_in_memory-holding [] front rest h = rw (
  ensure_available-holding in_memory 0 front rest (omega arith),
  resize_slice_fits 1 0 (holding in_memory front rest) (omega arith) (omega arith),
  append-nil,
)
bytes_in_memory-holding (x ∷ b) front rest h =
    rw
      (
        ensure_available-holding in_memory (length (x ∷ b)) front (x ∷ (b ++ rest))
            (rw (length-append b rest) (omega arith)),
        resize_slice_fits 1 (length (x ∷ b)) (holding in_memory front (x ∷ (b ++ rest)))
            (omega arith) (omega arith),
        suc-eq-zero (length b),
      )
      (read_into-holding (x ∷ b) front rest (omega arith))

bytes_from_stream-holding :
    (k : Origin) (b front rest : List ℕ)
    → FitsBytes b
    → bytes_from_stream (length b) (holding k front (b ++ rest))
      ≡ (ok b, holding k (front ++ b) rest)
unfolding bytes_from_stream
bytes_from_stream-holding k [] front rest h = rw append-nil
bytes_from_stream-holding k (x ∷ b) front rest h =
    rw (suc-eq-zero (length b)) (slice-holding k (x ∷ b) front rest (omega arith))

pub decode_bytes-Decodes : (b : List ℕ) → FitsBytes b → Decodes decode_bytes wire_bytes b
unfolding decode_bytes wire_bytes
decode_bytes-Decodes b h k front rest =
    let front' = front ++ uvarint_bytes (length b) in
    rw (
      append_assoc,
      read_count-holding k (length b) front (b ++ rest) (omega arith),
      by_source-holding (bytes_from_stream (length b)) (bytes_in_memory (length b)) front'
          (b ++ rest) (λ k. (ok b, holding k (front' ++ b) rest))
          (λ k. bytes_from_stream-holding k b front' rest h)
          (bytes_in_memory-holding b front' rest h) k,
      append_assoc,
    )

pub bool_of : ℕ → Bool
bool_of b = not (b == 0)

pub byte_of_bool : Bool → ℕ
byte_of_bool true = 1
byte_of_bool false = 0

-- The slice of Booleans is written and read as the bytes that it has in memory.
unfoldable pub encode_bools : List Bool → M Encoder (Unit {0})
unfolding byte_of_bool
encode_bools v = do
  emit (write_uvarint (length v))
  if ltb 0 (length v) then emit (write (map byte_of_bool v)) else pure tt

bools_from_stream : ℕ → M Decoder (List ℕ)
bools_from_stream n = do b ← slice (pos n); resize_slice 1 n; pure b

pub decode_bools : M Decoder (List Bool)
unfolding bools_from_stream bytes_in_memory bool_of
decode_bools = do
  n ← read_count
  b ← by_source (bools_from_stream n) (bytes_in_memory n)
  pure (map bool_of b)

pub wire_bools : List Bool → List ℕ
unfolding byte_of_bool wire_bytes
wire_bools v = wire_bytes (map byte_of_bool v)

pub encode_bools-Encodes : (v : List Bool) → Encodes encode_bools wire_bools v
unfolding encode_bools wire_bools
encode_bools-Encodes [] e = rw (write_uvarint_lem, append-nil)
encode_bools-Encodes (x ∷ v) e =
    rw (write_uvarint_lem, length-map byte_of_bool v)
      (ground (arith, write-write (uvarint_bytes (length (x ∷ v))) (map byte_of_bool (x ∷ v)) e))

bools_from_stream-holding :
    (k : Origin) (b front rest : List ℕ)
    → FitsBytes b
    → bools_from_stream (length b) (holding k front (b ++ rest))
      ≡ (ok b, holding k (front ++ b) rest)
unfolding bools_from_stream
bools_from_stream-holding k b front rest h = rw (
  slice-holding k b front rest (omega arith),
  resize_slice_fits 1 (length b) (holding k (front ++ b) rest) (omega arith) (omega arith),
)

bools_back : (v : List Bool) → map bool_of (map byte_of_bool v) ≡ v
unfolding bool_of byte_of_bool
bools_back [] = refl
bools_back (true ∷ v) = ap (◌∷◌ true) (bools_back v)
bools_back (false ∷ v) = ap (◌∷◌ false) (bools_back v)

pub decode_bools-Decodes : (v : List Bool) → FitsBytes v → Decodes decode_bools wire_bools v
unfolding decode_bools wire_bools
decode_bools-Decodes v h k front rest =
    let b = map byte_of_bool v in
    let fits : FitsBytes b = rw (length-map byte_of_bool v) h in
    let front' = front ++ uvarint_bytes (length b) in
    rw (
      append_assoc,
      read_count-holding k (length b) front (b ++ rest) (omega arith),
      by_source-holding (bools_from_stream (length b)) (bytes_in_memory (length b)) front'
          (b ++ rest) (λ k. (ok b, holding k (front' ++ b) rest))
          (λ k. bools_from_stream-holding k b front' rest fits)
          (bytes_in_memory-holding b front' rest fits) k,
      bools_back v,
      append_assoc,
    )

pub length-wire_bytes : (b : List ℕ) → 1 ≤ length (wire_bytes b)
unfolding wire_bytes
length-wire_bytes b = rw length-append (omega (arith, length-uvarint_bytes (length b)))

pub length-wire_bools : (v : List Bool) → 1 ≤ length (wire_bools v)
unfolding wire_bools
length-wire_bools v = length-wire_bytes (map byte_of_bool v)

pub wire_bytes_lem : (b : List ℕ) → wire_bytes b ≡ uvarint_bytes (length b) ++ b
unfolding wire_bytes
wire_bytes_lem b = refl

failed_next :
    {A B : Type 0} (out : Result A × Decoder) (f : A → M Decoder B) (x : Error)
    → out.0 ≡ err x
    → (next out f).0 ≡ err x
failed_next (ok a, d) f x h = cc
failed_next (err y, d) f x h = cc
failed_next (panic, d) f x h = cc

-- `byteSliceCodec` on bytes in memory that end too early.
pub decode_bytes-short :
    (body front : List ℕ) (n : ℕ)
    → length body < n
    → n ≤ max_int
    → (decode_bytes (holding in_memory front (uvarint_bytes n ++ body))).0 ≡ err eof
unfolding decode_bytes bytes_in_memory holding
decode_bytes-short body front n h size = rw (read_count-holding in_memory n front body size) (
    failed_next (ensure_available n (holding in_memory (front ++ uvarint_bytes n) body)) _ eof
      (ensure_available-short n (front ++ uvarint_bytes n) body h))
