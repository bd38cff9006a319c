-- ===== src/Codec/Offsets/Laws.antt =====
-- A field at its offset against its wire format.
use binary.Prelude.{
  ℕ, zero, suc, ◌/◌, ◌*◌, ◌≤◌, ◌<◌, ◌≡◌, refl, arith, ◌&&◌, ◌==◌, leb, length, take, drop,
  replicate, if◌then◌else◌,
}
use binary.Prelude.{
  List, [], ◌∷◌, ◌++◌, append_assoc, append-nil, Bool-cases, inl, inr, length-append, length-take,
  length-replicate, suc-eq-zero,
}
use binary.Base.{ok, wire_each}
use binary.Varint.{uvarint_bytes}
use binary.Varint.Shape.{length-uvarint_bytes}
use binary.Stream.{max_int}
use binary.Reader.View.{read-at}
use binary.Stream.Laws.{read_full-source}
use binary.Decoder.{read_some}
use binary.Decoder.{max_alloc}
use binary.Decoder.Laws.{Origin, in_memory, streaming, holding, read_slice-holding}
use binary.Decoder.Checks.{
  read_count-holding, ensure_available-holding, resize_slice_fits, by_source-holding,
}
use binary.Codec.{
  Width, w8, w16, w32, w64, bits, string, bool, int, uint, float32, float64, complex64, complex128,
}
use binary.Codec.{Codec, primitive, byte_slice, varuint_slice, Val}
use binary.Codec.{
  pointer, bool_slice, string_slice, fixed_slice, varint_slice, collection, slice_of_ptr, struct,
  map_of, string_map, uint64_map, union,
}
use binary.Codec.Loops.{Decodes}
use binary.Codec.Key.{same_bytes}
use binary.Codec.Key.Laws.{same_bytes-eq}
use binary.Codec.Primitive.{decode_primitive, wire_kind, decode_primitive-Decodes}
use binary.Codec.Bytes.{wire_bytes, FitsBytes}
use binary.Codec.Varints.{wire_varuints, FitsUnsigned}
use binary.Codec.Varints.Laws.{decode_unsigned-holding, room_for, width_le}
use binary.Codec.Tree.{wire}
use binary.Codec.Tree.Fits.{Fits}
use binary.Codec.Offsets.{
  read_string_over, room_in, read_over, read_all, fill_bytes, read_bytes_over, read_varuints_over,
  read_direct,
}
use binary.Decoder.{Decoder}
use binary.Base.{M}

room_in-holding :
    (capacity size n : ℕ) (k : Origin) (front rest : List ℕ)
    → n ≤ length rest
    → n ≤ max_int / 2
    → n * size ≤ max_alloc
    → room_in capacity size n (holding k front rest) ≡ (ok tt, holding k front rest)
unfolding room_in
room_in-holding capacity size n k front rest h g f = elim (Bool-cases (leb n capacity)) [
  | inl t ↦ rw t
  | inr e ↦ rw (
    e,
    ensure_available-holding k n front rest h,
    resize_slice_fits size n (holding k front rest) g f,
  )
]

drop_all : (n : ℕ) (xs : List ℕ) → length xs ≡ n → drop n xs ≡ []
drop_all zero [] h = refl
drop_all zero (x ∷ xs) h = absurd (omega arith)
drop_all (suc n) [] h = refl
drop_all (suc n) (x ∷ xs) h = drop_all n xs (omega arith)

read_over-holding :
    (buffer b front rest : List ℕ)
    → 0 < length b
    → length buffer ≡ length b
    → read_over buffer (holding in_memory front (b ++ rest))
      ≡ (ok b, holding in_memory (front ++ b) rest)
unfolding read_over read_some holding
read_over-holding buffer b front rest h e =
    rw (e, read-at front b rest h, drop_all (length b) buffer e, append-nil)

read_all-holding :
    (b : List ℕ) (k : Origin) (front rest : List ℕ)
    → 0 < length b
    → read_all (length b) (holding k front (b ++ rest)) ≡ (ok b, holding k (front ++ b) rest)
unfolding read_all read_some holding
read_all-holding b in_memory front rest h = rw (read-at front b rest h)
read_all-holding b (streaming failure) front rest h = rw (read_full-source failure front b rest)

-- The slice that the bytes are read into has their length.
length-buffer :
    (n : ℕ) (old : List ℕ) → length (if leb n (length old) then take n old else replicate n 0) ≡ n
length-buffer n old = elim (Bool-cases (leb n (length old))) [
  | inl t ↦ rw t (length-take n old (ground arith))
  | inr f ↦ rw f (length-replicate {A = ℕ} n 0)
]

fill_bytes-holding :
    (old b : List ℕ) (k : Origin) (front rest : List ℕ)
    → fill_bytes old (length b) (holding k front (b ++ rest)) ≡ (ok b, holding k (front ++ b) rest)
unfolding fill_bytes
fill_bytes-holding old [] k front rest = rw append-nil
fill_bytes-holding old (x ∷ xs) k front rest =
    let b : List ℕ = x ∷ xs in
    let buffer : List ℕ =
      if leb (length b) (length old) then take (length b) old else replicate (length b) 0 in
    rw (suc-eq-zero (length xs)) (
      by_source-holding (read_all (length b)) (read_over buffer) front (b ++ rest)
        (λ o. (ok b, holding o (front ++ b) rest))
        (λ o. read_all-holding b o front rest (omega arith))
        (read_over-holding buffer b front rest (omega arith) (length-buffer (length b) old)) k)

-- Whatever the target's slice holds, and however much of it is used again, DecodeTo of a field of bytes
-- at its offset reads the bytes that were written, in memory and from a stream, and stops right behind.
read_bytes_over-Decodes :
    (old b : List ℕ)
    → FitsBytes b
    → (k : Origin) (front rest : List ℕ)
    → read_bytes_over old (holding k front (wire_bytes b ++ rest))
      ≡ (ok b, holding k (front ++ wire_bytes b) rest)
unfolding read_bytes_over wire_bytes
read_bytes_over-Decodes old b h k front rest = rw (
  append_assoc,
  read_count-holding k (length b) front (b ++ rest) (omega arith),
  room_in-holding (length old) 1 (length b) k (front ++ uvarint_bytes (length b)) (b ++ rest)
      (rw (length-append b rest) (omega arith)) (omega arith) (omega arith),
  fill_bytes-holding old b k (front ++ uvarint_bytes (length b)) rest,
  append_assoc,
)

read_varuints_over-Decodes :
    (capacity : ℕ) (w : Width) (v : List ℕ)
    → FitsUnsigned w v
    → Decodes (read_varuints_over capacity w) wire_varuints v
unfolding read_varuints_over wire_varuints
read_varuints_over-Decodes capacity w v h k front rest =
    let body : List ℕ = wire_each uvarint_bytes v ++ rest in
    rw (
      append_assoc,
      read_count-holding k (length v) front body (omega arith),
      room_in-holding capacity (bits w / 8) (length v) k (front ++ uvarint_bytes (length v)) body
          (room_for uvarint_bytes v rest (λ x. (length-uvarint_bytes x).0)) (omega arith)
          (width_le w (length v) h.1),
      decode_unsigned-holding w v k (front ++ uvarint_bytes (length v)) rest h.0,
      append_assoc,
    )

same_string : (old b : List ℕ) → (if length old == length b && same_bytes old b then old else b) ≡ b
same_string old b = elim (Bool-cases (length old == length b && same_bytes old b)) [
  | inl t ↦ rw t (same_bytes-eq old b (ground arith))
  | inr f ↦ rw f refl
]

read_string_over-Decodes :
    (old b : List ℕ) → length b ≤ max_int / 2 → Decodes (read_string_over old) wire_bytes b
unfolding read_string_over wire_bytes
read_string_over-Decodes old b h k front rest =
    rw (append_assoc, read_slice-holding k b front rest h, same_string old b, append_assoc)

-- What the codec of the field reads, the read at the offset reads.
pub read_direct-Decodes :
    (old : List ℕ) (c : Codec) (v : Val c) (through : M Decoder (Val c))
    → Fits c v
    → Decodes through (wire c) v
    → Decodes (read_direct old c through) (wire c) v
unfolding read_direct wire decode_primitive wire_kind wire_bytes
read_direct-Decodes old (primitive string) v m h g = read_string_over-Decodes old v h
read_direct-Decodes old (primitive bool) v m h g = decode_primitive-Decodes bool v h
read_direct-Decodes old (primitive (int n)) v m h g = decode_primitive-Decodes (int n) v h
read_direct-Decodes old (primitive (uint n)) v m h g = decode_primitive-Decodes (uint n) v h
read_direct-Decodes old (primitive float32) v m h g = decode_primitive-Decodes float32 v h
read_direct-Decodes old (primitive float64) v m h g = decode_primitive-Decodes float64 v h
read_direct-Decodes old (primitive complex64) v m h g = decode_primitive-Decodes complex64 v h
read_direct-Decodes old (primitive complex128) v m h g = decode_primitive-Decodes complex128 v h
read_direct-Decodes old byte_slice v m h g = read_bytes_over-Decodes old v h
read_direct-Decodes old (varuint_slice w8) v m h g = g
read_direct-Decodes old (varuint_slice w16) v m h g =
    read_varuints_over-Decodes (length old) w16 v h
read_direct-Decodes old (varuint_slice w32) v m h g =
    read_varuints_over-Decodes (length old) w32 v h
read_direct-Decodes old (varuint_slice w64) v m h g =
    read_varuints_over-Decodes (length old) w64 v h
read_direct-Decodes old (pointer c) v m h g = g
read_direct-Decodes old bool_slice v m h g = g
read_direct-Decodes old (string_slice sh) v m h g = g
read_direct-Decodes old (fixed_slice sh f) v m h g = g
read_direct-Decodes old (varint_slice n) v m h g = g
read_direct-Decodes old (collection sh c) v m h g = g
read_direct-Decodes old (slice_of_ptr c) v m h g = g
read_direct-Decodes old (struct fs) v m h g = g
read_direct-Decodes old (map_of k c) v m h g = g
read_direct-Decodes old (string_map p) v m h g = g
read_direct-Decodes old uint64_map v m h g = g
read_direct-Decodes old (union arms) v m h g = g
