-- ===== src/Codec/Varints/Laws.antt =====
-- `varSliceCodec` against its wire format.
use binary.Prelude.{ℕ, ◌*◌, ◌/◌, ◌^◌, ◌≤◌, ◌<◌, ◌≡◌, refl, arith, length, All}
use binary.Prelude.{List, [], ◌∷◌, ◌++◌, append_assoc, length-append}
use binary.Prelude.Int.{ℤ, InRange}
use binary.Base.{ok, ◌>>=◌, pure, wire_each}
use binary.Varint.{uvarint_bytes, varint_bytes, fold_sign}
use binary.Varint.Shape.{length-uvarint_bytes, varint_bytes-eq-uvarint_bytes}
use binary.Varint.Zigzag.{fold_sign-IsU64, decode_varint-fold_sign}
use binary.Encoder.{write_uvarint, write_varint}
use binary.Encoder.Laws.{write-write, write_uvarint_lem, write_varint_lem}
use binary.Reader.Bulk.{to_signed, to_unsigned, varint_value}
use binary.Reader.Bulk.Laws.{read_varints-at}
use binary.Decoder.{read_uvarint, read_varint}
use binary.Decoder.{max_alloc}
use binary.Decoder.Laws.{
  Origin, in_memory, streaming, holding, read_uvarint-holding, read_varint-holding,
}
use binary.Decoder.Checks.{read_count-holding, ensure_available-holding, resize_slice_fits}
use binary.Codec.{Width, w8, w16, w32, w64, bits}
use binary.Codec.Loops.{emit, Encodes, Decodes, decode_each-Decodes}
use binary.Codec.Loops.{bulk_or_each-Encodes, All-of, All-map}
use binary.Codec.Primitive.{to_signed_self, widen, widen_unsigned}
use binary.Codec.Varints.{
  encode_varints, encode_varuints, decode_signed, decode_unsigned, count_of, decode_varints,
  decode_varuints, wire_varints, wire_varuints, FitsSigned, FitsUnsigned, IsWide,
}

pub encode_varints-Encodes : (v : List ℤ) → Encodes encode_varints wire_varints v
unfolding encode_varints wire_varints
encode_varints-Encodes v e = rw (
  write_uvarint_lem,
  bulk_or_each-Encodes (λ x. emit (write_varint x)) varint_bytes v
      (All-of _ v λ x e. rw write_varint_lem),
  write-write,
)

pub encode_varuints-Encodes :
    (w : Width) (v : List ℕ) → IsWide w → Encodes (encode_varuints w) wire_varuints v
unfolding encode_varuints wire_varuints
encode_varuints-Encodes w8 v h e = absurd h
encode_varuints-Encodes w v h e = rw (
  write_uvarint_lem,
  bulk_or_each-Encodes (λ x. emit (write_uvarint x)) uvarint_bytes v
      (All-of _ v λ x e. rw write_uvarint_lem),
  write-write,
)

pub width_le : (w : Width) (n : ℕ) → n * 8 ≤ max_alloc → n * (bits w / 8) ≤ max_alloc
width_le w8 n h = omega arith
width_le w16 n h = omega arith
width_le w32 n h = omega arith
width_le w64 n h = omega arith

count_of-holding :
    (w : Width) (k : Origin) (n : ℕ) (front rest : List ℕ)
    → n * 8 ≤ max_alloc
    → n ≤ length rest
    → count_of w (holding k front (uvarint_bytes n ++ rest))
      ≡ (ok n, holding k (front ++ uvarint_bytes n) rest)
unfolding count_of
count_of-holding w k n front rest h g = rw (
  read_count-holding k n front rest (omega arith),
  ensure_available-holding k n (front ++ uvarint_bytes n) rest g,
  resize_slice_fits (bits w / 8) n (holding k (front ++ uvarint_bytes n) rest) (omega arith)
      (width_le w n h),
)

pub length-wire_each :
    {A : Type 0} (wire : A → List ℕ) (min : ℕ) (xs : List A)
    → All (λ x. min ≤ length (wire x)) xs
    → length xs * min ≤ length (wire_each wire xs)
unfolding wire_each
length-wire_each wire min [] h = omega arith
length-wire_each wire min (x ∷ xs) h =
    rw length-append (omega (arith, length-wire_each wire min xs h.1))

pub room_for :
    {A : Type 0} (wire : A → List ℕ) (xs : List A) (rest : List ℕ)
    → ((x : A) → 1 ≤ length (wire x))
    → length xs ≤ length (wire_each wire xs ++ rest)
room_for wire xs rest h =
    rw (length-append (wire_each wire xs) rest)
      (omega (arith, length-wire_each wire 1 xs (All-of _ xs h)))

length-varint_bytes : (v : ℤ) → 1 ≤ length (varint_bytes v)
length-varint_bytes v = rw (varint_bytes-eq-uvarint_bytes v) (length-uvarint_bytes (fold_sign v)).0

pub decode_unsigned-holding :
    (w : Width) (v : List ℕ) (k : Origin) (front rest : List ℕ)
    → All (λ x. x < 2 ^ bits w) v
    → decode_unsigned w (length v) (holding k front (wire_each uvarint_bytes v ++ rest))
      ≡ (ok v, holding k (front ++ wire_each uvarint_bytes v) rest)
unfolding decode_unsigned holding
decode_unsigned-holding w v in_memory front rest h = rw (
    read_varints-at (to_unsigned (bits w)) (λ x. x) v front rest
      (All-map _ _ v (widen_unsigned w) h))
decode_unsigned-holding w v (streaming e) front rest h =
    decode_each-Decodes (do v ← read_uvarint; pure (to_unsigned (bits w) v)) uvarint_bytes v
      (All-map _ _ v
        (λ x hx k f r.
          let wide = widen_unsigned w x hx in rw (read_uvarint-holding k x f r wide.0, wide.1))
        h)
      (streaming e) front rest

folded : List ℤ → List ℕ
folded v = wire_each (λ x. uvarint_bytes (fold_sign x)) v

wire_each-folded : (v : List ℤ) → wire_each varint_bytes v ≡ folded v
unfolding folded wire_each
wire_each-folded [] = refl
wire_each-folded (x ∷ v) = rw (varint_bytes-eq-uvarint_bytes x, wire_each-folded v)

decode_signed-holding :
    (w : Width) (v : List ℤ) (k : Origin) (front rest : List ℕ)
    → All (InRange (bits w)) v
    → decode_signed w (length v) (holding k front (wire_each varint_bytes v ++ rest))
      ≡ (ok v, holding k (front ++ wire_each varint_bytes v) rest)
unfolding decode_signed holding
decode_signed-holding w v in_memory front rest h = rw (wire_each-folded v) (
    unfold folded in
    rw (
      read_varints-at (varint_value (bits w)) fold_sign v front rest (
        All-map _ _ v
          (λ x hx.
            let wide = widen w x hx in
            (fold_sign-IsU64 x wide, rw (decode_varint-fold_sign x wide) (to_signed_self w x hx)))
          h)))
decode_signed-holding w v (streaming e) front rest h =
    decode_each-Decodes (do v ← read_varint; pure (to_signed (bits w) v)) varint_bytes v
      (All-map _ _ v
        (λ x hx k f r. rw (read_varint-holding k x f r (widen w x hx), to_signed_self w x hx)) h)
      (streaming e) front rest

pub decode_varints-Decodes :
    (w : Width) (v : List ℤ) → FitsSigned w v → Decodes (decode_varints w) wire_varints v
unfolding decode_varints wire_varints
decode_varints-Decodes w v h k front rest =
    let body : List ℕ = wire_each varint_bytes v ++ rest in
    rw (
      append_assoc,
      count_of-holding w k (length v) front body h.1
          (room_for varint_bytes v rest length-varint_bytes),
      decode_signed-holding w v k (front ++ uvarint_bytes (length v)) rest h.0,
      append_assoc,
    )

pub decode_varuints-Decodes :
    (w : Width) (v : List ℕ) → FitsUnsigned w v → Decodes (decode_varuints w) wire_varuints v
unfolding decode_varuints wire_varuints
decode_varuints-Decodes w v h k front rest =
    let body : List ℕ = wire_each uvarint_bytes v ++ rest in
    rw (
      append_assoc,
      count_of-holding w k (length v) front body h.1
          (room_for uvarint_bytes v rest (λ x. (length-uvarint_bytes x).0)),
      decode_unsigned-holding w v k (front ++ uvarint_bytes (length v)) rest h.0,
      append_assoc,
    )

pub length-wire_varints : (v : List ℤ) → 1 ≤ length (wire_varints v)
unfolding wire_varints
length-wire_varints v = rw length-append (omega (arith, length-uvarint_bytes (length v)))

pub length-wire_varuints : (v : List ℕ) → 1 ≤ length (wire_varuints v)
unfolding wire_varuints
length-wire_varuints v = rw length-append (omega (arith, length-uvarint_bytes (length v)))
