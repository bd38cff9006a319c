-- ===== src/Codec/Pointer.antt =====
-- `reflectPointerCodec` and `reflectSliceOfPtrCodec`, over the codec of what is behind a pointer.
use binary.Codec.Delivery.{Delivers, Delivers-of_write, Delivers-then, encode_each-Delivers}
use binary.Prelude.{ℕ, ◌*◌, ◌≤◌, arith, length, All}
use binary.Prelude.{List, ◌++◌, append_assoc, length-append, if◌then◌else◌}
use binary.Prelude.{true, false, Option, none, some}
use binary.Base.{M, ◌>>=◌, ◌>>◌, pure, wire_each}
use binary.Varint.{uvarint_bytes}
use binary.Varint.Shape.{length-uvarint_bytes}
use binary.Encoder.{Encoder, write_bool, bool_byte}
use binary.Encoder.Laws.{write_bool_lem}
use binary.Decoder.{Decoder, read_count, ensure_available, resize_slice, max_alloc}
use binary.Decoder.{read_bool}
use binary.Decoder.Laws.{holding, read_bool-holding}
use binary.Decoder.Checks.{read_count-holding, ensure_available-holding}
use binary.Decoder.Checks.{resize_slice_fits}
use binary.Codec.{slice_of}
use binary.Codec.Count.{count_bytes, write_count, write_count_lem}
use binary.Codec.Loops.{emit, Decodes, encode_each, decode_each}
use binary.Codec.Loops.{decode_each-Decodes, All-map}
use binary.Codec.Varints.Laws.{room_for}
use binary.Decoder.Safety.{Safe, pure-Safe, if-Safe, bind-Safe, then-Safe}
use binary.Codec.Loops.{decode_each-Safe}
use binary.Decoder.Safety.Calls.{
  read_bool-Safe, read_count-Safe, ensure_available-Safe, resize_slice-Safe,
}

module _ {A : Type 0} where
  -- A pointer is a Boolean, whether it is nil, and the value if not. The loops of
  -- `reflectSliceOfPtrCodec` do the same for each element.
  pub encode_pointer : (A → M Encoder (Unit {0})) → Option A → M Encoder (Unit {0})
  encode_pointer encode none = emit (write_bool true)
  encode_pointer encode (some x) = do emit (write_bool false); encode x

  pub decode_pointer : M Decoder A → M Decoder (Option A)
  decode_pointer decode = do
    is_nil ← read_bool
    if is_nil then pure none else (do x ← decode; pure (some x))

  pub wire_pointer : (A → List ℕ) → Option A → List ℕ
  wire_pointer wire none = bool_byte true
  wire_pointer wire (some x) = bool_byte false ++ wire x

  pub encode_slice_of_ptr : (A → M Encoder (Unit {0})) → List (Option A) → M Encoder (Unit {0})
  unfolding encode_pointer
  encode_slice_of_ptr encode xs = do
    write_count (slice_of 8) (length xs)
    encode_each (encode_pointer encode) xs

  unfoldable pub decode_slice_of_ptr : M Decoder A → M Decoder (List (Option A))
  unfolding decode_pointer
  decode_slice_of_ptr decode = do
    n ← read_count
    ensure_available n
    resize_slice 8 n
    decode_each (decode_pointer decode) n

  pub wire_slice_of_ptr : (A → List ℕ) → List (Option A) → List ℕ
  unfolding wire_pointer
  wire_slice_of_ptr wire xs = uvarint_bytes (length xs) ++ wire_each (wire_pointer wire) xs

  -- What holds of the value behind a pointer that is not nil.
  abbrev pub Behind {ℓ} : (A → Type ℓ) → Option A → Type ℓ
  Behind P none = Unit {ℓ}
  Behind P (some x) = P x

  pub Behind-map {ℓ κ} :
      (P : A → Type ℓ) (Q : A → Type κ)
      → ((x : A) → P x → Q x)
      → (o : Option A) → Behind P o
      → Behind Q o
  Behind-map P Q f none h = tt
  Behind-map P Q f (some x) h = f x h

  pub encode_pointer-Delivers :
      (encode : A → M Encoder (Unit {0})) (wire : A → List ℕ) (o : Option A)
      → Behind (λ x. Delivers (encode x) (wire x)) o
      → Delivers (encode_pointer encode o) (wire_pointer wire o)
  unfolding encode_pointer wire_pointer
  encode_pointer-Delivers encode wire none h = Delivers-of_write _ _ (λ e. rw write_bool_lem)
  encode_pointer-Delivers encode wire (some x) h =
      Delivers-then (emit (write_bool false)) (encode x) (bool_byte false) (wire x)
        (Delivers-of_write _ _ (λ e. rw write_bool_lem)) h

  pub decode_pointer-Decodes :
      (decode : M Decoder A) (wire : A → List ℕ) (o : Option A)
      → Behind (Decodes decode wire) o
      → Decodes (decode_pointer decode) (wire_pointer wire) o
  unfolding decode_pointer wire_pointer
  decode_pointer-Decodes decode wire none h k front rest = rw (read_bool-holding k true front rest)
  decode_pointer-Decodes decode wire (some x) h k front rest = rw (
    append_assoc,
    read_bool-holding k false front (wire x ++ rest),
    h k (front ++ bool_byte false) rest,
    append_assoc,
  )

  pub length-wire_pointer : (wire : A → List ℕ) (o : Option A) → 1 ≤ length (wire_pointer wire o)
  unfolding wire_pointer bool_byte
  length-wire_pointer wire none = omega arith
  length-wire_pointer wire (some x) = omega arith

  pub encode_slice_of_ptr-Delivers :
      (encode : A → M Encoder (Unit {0})) (wire : A → List ℕ) (xs : List (Option A))
      → All (Behind (λ x. Delivers (encode x) (wire x))) xs
      → Delivers (encode_slice_of_ptr encode xs) (wire_slice_of_ptr wire xs)
  unfolding encode_slice_of_ptr wire_slice_of_ptr count_bytes
  encode_slice_of_ptr-Delivers encode wire xs h =
      Delivers-then (write_count (slice_of 8) (length xs)) (encode_each (encode_pointer encode) xs)
        (uvarint_bytes (length xs)) (wire_each (wire_pointer wire) xs)
        (Delivers-of_write _ _ (write_count_lem (slice_of 8) (length xs)))
        (encode_each-Delivers (encode_pointer encode) (wire_pointer wire) xs
          (All-map _ _ xs (encode_pointer-Delivers encode wire) h))

  pub decode_slice_of_ptr-Decodes :
      (decode : M Decoder A) (wire : A → List ℕ) (xs : List (Option A))
      → All (Behind (Decodes decode wire)) xs
      → length xs * 8 ≤ max_alloc
      → Decodes (decode_slice_of_ptr decode) (wire_slice_of_ptr wire) xs
  unfolding decode_slice_of_ptr wire_slice_of_ptr
  decode_slice_of_ptr-Decodes decode wire xs h fits k front rest =
      let front' = front ++ uvarint_bytes (length xs) in
      let body : List ℕ = wire_each (wire_pointer wire) xs ++ rest in
      rw (
        append_assoc,
        read_count-holding k (length xs) front body (omega arith),
        ensure_available-holding k (length xs) front' body
            (room_for (wire_pointer wire) xs rest (length-wire_pointer wire)),
        resize_slice_fits 8 (length xs) (holding k front' body) (omega arith) fits,
        decode_each-Decodes (decode_pointer decode) (wire_pointer wire) xs
            (All-map _ _ xs (decode_pointer-Decodes decode wire) h) k front' rest,
        append_assoc,
      )

  pub length-wire_slice_of_ptr :
      (wire : A → List ℕ) (xs : List (Option A)) → 1 ≤ length (wire_slice_of_ptr wire xs)
  unfolding wire_slice_of_ptr
  length-wire_slice_of_ptr wire xs =
      rw (length-append (uvarint_bytes (length xs)) (wire_each (wire_pointer wire) xs))
        (omega (arith, length-uvarint_bytes (length xs)))

module _ {A : Type 0} {decode : M Decoder A} (h : Safe decode) where
  pub decode_pointer-Safe : Safe (decode_pointer decode)
  unfolding decode_pointer
  decode_pointer-Safe =
      bind-Safe read_bool-Safe
        λ is_nil. if-Safe is_nil (pure-Safe none) (bind-Safe h λ x. pure-Safe (some x))

  pub decode_slice_of_ptr-Safe : Safe (decode_slice_of_ptr decode)
  unfolding decode_slice_of_ptr
  decode_slice_of_ptr-Safe = bind-Safe read_count-Safe λ n.
      then-Safe (ensure_available-Safe n)
        (then-Safe (resize_slice-Safe 8 n) (decode_each-Safe n decode_pointer-Safe))
