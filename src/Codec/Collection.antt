-- ===== src/Codec/Collection.antt =====
-- `reflectCollectionCodec`, over what encodes and decodes an element.
use binary.Codec.Delivery.{Delivers, Delivers-of_write, Delivers-then, encode_each-Delivers}
use binary.Prelude.{ℕ, ◌*◌, ◌≤◌, ◌≡◌, refl, arith, length, All}
use binary.Prelude.{
  List, [], ◌∷◌, ◌++◌, append_assoc, append-nil, length-append, ◌==◌, if◌then◌else◌,
}
use binary.Prelude.{◌&&◌, Bool, true, false, replicate, Bool-cases, inl, inr}
use binary.Base.{ok, M, ◌>>=◌, ◌>>◌, pure, wire_each}
use binary.Varint.{uvarint_bytes}
use binary.Varint.Shape.{length-uvarint_bytes}
use binary.Encoder.{Encoder}
use binary.Decoder.{Decoder, read_count, ensure_elements, resize_slice}
use binary.Decoder.{by_source}
use binary.Decoder.Laws.{Origin, in_memory, holding}
use binary.Decoder.Checks.{read_count-holding, ensure_elements-holding}
use binary.Decoder.Checks.{by_source-holding, resize_slice_fits}
use binary.Codec.{Shape, slice_of, array_of}
use binary.Codec.Estimates.{min_of_shape}
use binary.Codec.Count.{count_bytes, write_count, write_count_lem, FitsShape}
use binary.Codec.Loops.{Decodes, encode_each, decode_each}
use binary.Codec.Loops.{decode_each-Decodes, All-map}
use binary.Codec.Varints.Laws.{length-wire_each}
use binary.Decoder.Safety.{Safe, pure-Safe, if-Safe, bind-Safe, then-Safe, by_source-Safe}
use binary.Codec.Loops.{decode_each-Safe}
use binary.Decoder.Safety.Calls.{read_count-Safe, ensure_elements-Safe, resize_slice-Safe}

module _ {A : Type 0} where
  pub encode_collection : Shape → (A → M Encoder (Unit {0})) → List A → M Encoder (Unit {0})
  encode_collection sh encode xs = do write_count sh (length xs); encode_each encode xs

  unfoldable pub wire_collection : Shape → (A → List ℕ) → List A → List ℕ
  wire_collection sh wire xs = count_bytes sh (length xs) ++ wire_each wire xs

  -- The elements of a slice in memory: without a least size they are appended one by one, else
  -- their number is held against the bytes that are left.
  elements_in_memory : M Decoder A → ℕ → ℕ → ℕ → M Decoder (List A)
  elements_in_memory decode min size n =
      if min == 0
      then decode_each decode n
      else (do ensure_elements n min; resize_slice size n; decode_each decode n)

  -- `wireless` and `min` are `isZeroWireCodec` and `wireMinBytes` of the element's codec, `blank` is
  -- the element that `reflect.MakeSlice` makes.
  pub decode_collection : M Decoder A → A → Bool → Bool → ℕ → Shape → M Decoder (List A)
  unfolding elements_in_memory
  decode_collection decode blank is_struct wireless min (array_of n) =
      if is_struct && wireless then pure (replicate n blank) else decode_each decode n
  decode_collection decode blank is_struct wireless min (slice_of size) = do
    n ← read_count
    if wireless
        then (do resize_slice size n; pure (replicate n blank))
        else (by_source (do resize_slice size n; decode_each decode n)
            (elements_in_memory decode min size n))

  pub encode_collection-Delivers :
      (sh : Shape) (encode : A → M Encoder (Unit {0})) (wire : A → List ℕ) (xs : List A)
      → All (λ x. Delivers (encode x) (wire x)) xs
      → Delivers (encode_collection sh encode xs) (wire_collection sh wire xs)
  unfolding encode_collection wire_collection
  encode_collection-Delivers sh encode wire xs h =
      Delivers-then (write_count sh (length xs)) (encode_each encode xs)
        (count_bytes sh (length xs)) (wire_each wire xs)
        (Delivers-of_write _ _ (write_count_lem sh (length xs)))
        (encode_each-Delivers encode wire xs h)

  -- The array's length times the least size of an element; a slice has a byte for its count.
  pub min_of_shape-le :
      (sh : Shape) (wire : A → List ℕ) (min : ℕ) (xs : List A)
      → All (λ x. min ≤ length (wire x)) xs
      → FitsShape sh xs
      → min_of_shape sh min ≤ length (wire_collection sh wire xs)
  unfolding wire_collection count_bytes
  min_of_shape-le (slice_of size) wire min xs h fits =
      rw (length-append (uvarint_bytes (length xs)) (wire_each wire xs))
        (omega (arith, length-uvarint_bytes (length xs)))
  min_of_shape-le (array_of n) wire min xs h fits = rw (← fits) (length-wire_each wire min xs h)

  -- Elements without bytes on the wire are all the zero value.
  pub wireless_each :
      (wire : A → List ℕ) (blank : A) (xs : List A)
      → All (λ x. (x ≡ blank) × (wire x ≡ [])) xs
      → (xs ≡ replicate (length xs) blank) × (wire_each wire xs ≡ [])
  unfolding wire_each
  wireless_each wire blank [] h = (refl, refl)
  wireless_each wire blank (x ∷ xs) h =
      let rest = wireless_each wire blank xs h.1 in (rw (h.0.0, ← rest.0), rw (h.0.1, rest.1))

module _ {A : Type 0} (decode : M Decoder A) (wire : A → List ℕ) (min : ℕ) where
  -- What the elements of a slice have to satisfy.
  abbrev pub Element : A → Type 0
  Element x = Decodes decode wire x × (min ≤ length (wire x))

  -- The elements of a slice that was allocated, after its checks.
  from_stream-holding :
      (size : ℕ) (xs : List A) (k : Origin) (front rest : List ℕ)
      → All Element xs
      → FitsShape (slice_of size) xs
      → (do resize_slice size (length xs); decode_each decode (length xs))
          (holding k front (wire_each wire xs ++ rest))
        ≡ (ok xs, holding k (front ++ wire_each wire xs) rest)
  from_stream-holding size xs k front rest h fits =
      rw
        (resize_slice_fits size (length xs) (holding k front (wire_each wire xs ++ rest)) fits.0
          fits.1)
        (decode_each-Decodes decode wire xs (All-map _ _ xs (λ x e. e.0) h) k front rest)

  elements_in_memory-holding :
      (size : ℕ) (xs : List A) (front rest : List ℕ)
      → All Element xs
      → FitsShape (slice_of size) xs
      → elements_in_memory decode min size
          (length xs)
          (holding in_memory front (wire_each wire xs ++ rest))
        ≡ (ok xs, holding in_memory (front ++ wire_each wire xs) rest)
  unfolding elements_in_memory
  elements_in_memory-holding size xs front rest h fits = elim (Bool-cases (min == 0)) [
    | inl none_needed ↦
        rw none_needed
          (decode_each-Decodes decode wire xs (All-map _ _ xs (λ x e. e.0) h) in_memory front rest)
    | inr some_needed ↦
        rw
          (
            some_needed,
            ensure_elements-holding in_memory (length xs) min front (wire_each wire xs ++ rest)
                room,
          )
          (from_stream-holding size xs in_memory front rest h fits)
  ]
    where
      room : length xs * min ≤ length (wire_each wire xs ++ rest)
      room =
          rw (length-append (wire_each wire xs) rest)
            (omega (arith, length-wire_each wire min xs (All-map _ _ xs (λ x e. e.1) h)))

  -- The whole codec reads back what it wrote. Elements with no bytes are the zero value `blank`.
  pub decode_collection-Decodes :
      (blank : A) (is_struct wireless : Bool) (sh : Shape) (xs : List A)
      → All Element xs
      → (wireless ≡ true → All (λ x. (x ≡ blank) × (wire x ≡ [])) xs)
      → FitsShape sh xs
      → Decodes
          (decode_collection decode blank is_struct wireless min sh)
          (wire_collection sh wire)
          xs
  unfolding decode_collection wire_collection count_bytes
  decode_collection-Decodes blank is_struct true (slice_of size) xs h blanks fits k front rest =
      let (same, nothing) = wireless_each wire blank xs (blanks refl) in
      let front' = front ++ uvarint_bytes (length xs) in
      rw (nothing, append-nil, read_count-holding k (length xs) front rest (omega arith))
        (rw (resize_slice_fits size (length xs) (holding k front' rest) fits.0 fits.1)
          (rw (← same)))
  decode_collection-Decodes blank is_struct false (slice_of size) xs h blanks fits k front rest =
      let front' = front ++ uvarint_bytes (length xs) in
      let body : List ℕ = wire_each wire xs ++ rest in
      rw (
        append_assoc,
        read_count-holding k (length xs) front body (omega arith),
        by_source-holding (do resize_slice size (length xs); decode_each decode (length xs))
            (elements_in_memory decode min size (length xs)) front' body
            (λ k. (ok xs, holding k (front' ++ wire_each wire xs) rest))
            (λ k. from_stream-holding size xs k front' rest h fits)
            (elements_in_memory-holding size xs front' rest h fits) k,
        append_assoc,
      )
  decode_collection-Decodes blank true true (array_of n) xs h blanks fits k front rest =
      let (same, nothing) = wireless_each wire blank xs (blanks refl) in
      rw (nothing, append-nil, ← fits) (rw (← same))
  decode_collection-Decodes blank true false (array_of n) xs h blanks fits k front rest =
      rw (← fits) (decode_each-Decodes decode wire xs (All-map _ _ xs (λ x e. e.0) h) k front rest)
  decode_collection-Decodes blank false wireless (array_of n) xs h blanks fits k front rest =
      rw (← fits) (decode_each-Decodes decode wire xs (All-map _ _ xs (λ x e. e.0) h) k front rest)

module _ {A : Type 0} {decode : M Decoder A} (h : Safe decode) where
  elements-Safe : (size n : ℕ) → Safe (do resize_slice size n; decode_each decode n)
  elements-Safe size n = then-Safe (resize_slice-Safe size n) (decode_each-Safe n h)

  pub decode_collection-Safe :
      (blank : A) (is_struct wireless : Bool) (min : ℕ) (sh : Shape)
      → Safe (decode_collection decode blank is_struct wireless min sh)
  unfolding decode_collection elements_in_memory
  decode_collection-Safe blank is_struct wireless min (array_of n) =
      if-Safe (is_struct && wireless) (pure-Safe _) (decode_each-Safe n h)
  decode_collection-Safe blank is_struct wireless min (slice_of size) =
      bind-Safe read_count-Safe λ n.
        if-Safe wireless (then-Safe (resize_slice-Safe size n) (pure-Safe _)) (
          by_source-Safe (elements-Safe size n) (
            if-Safe (min == 0) (decode_each-Safe n h)
              (then-Safe (ensure_elements-Safe n min) (elements-Safe size n))))
