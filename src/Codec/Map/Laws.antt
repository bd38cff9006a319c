-- ===== src/Codec/Map/Laws.antt =====
-- `reflectMapCodec` against its wire format.
use binary.Codec.{KeyKind, KeyVal}
use binary.Prelude.{ap, ◌∙◌}
use binary.Prelude.{ℕ, ◌+◌, ◌*◌, ◌≤◌, ◌≡◌, refl, arith, length, All, ltb}
use binary.Prelude.{List, [], ◌∷◌, ◌++◌, append_assoc, append-nil, Bool, true, false, length-append}
use binary.Base.{ok, M, wire_each, pure}
use binary.Prelude.{◌&&◌, if◌then◌else◌}
use binary.Varint.{uvarint_bytes}
use binary.Varint.Shape.{length-uvarint_bytes}
use binary.Encoder.{Encoder, write_uvarint}
use binary.Encoder.Laws.{write_uvarint_lem}
use binary.Stream.{max_int}
use binary.Decoder.{Decoder, ensure_elements}
use binary.Decoder.Laws.{Origin, holding}
use binary.Decoder.Checks.{read_count-holding, ensure_elements-holding}
use binary.Codec.Loops.{emit, Decodes, encode_each, All-map, All-of}
use binary.Codec.Varints.Laws.{length-wire_each}
use binary.Codec.Delivery.{Delivers, Delivers-then, Delivers-of_write, encode_each-Delivers}
use binary.Codec.Key.{same_key, write_key, read_key}
use binary.Codec.Key.Laws.{wire_key, FitsKey, write_key-Encodes, read_key-Decodes, length-wire_key}
use binary.Codec.Map.{put, decode_entries, encode_entry, encode_map, decode_map}

-- The wire format of an entry, and of a map.
unfoldable pub wire_entry : {V : Type 0} (k : KeyKind) → (V → List ℕ) → KeyVal k × V → List ℕ
wire_entry k wire (key, v) = wire_key k key ++ wire v

unfoldable pub wire_map : {V : Type 0} (k : KeyKind) → (V → List ℕ) → List (KeyVal k × V) → List ℕ
unfolding wire_entry
wire_map k wire m = uvarint_bytes (length m) ++ wire_each (wire_entry k wire) m

-- No entry has the key.
abbrev pub Fresh : {V : Type 0} (k : KeyKind) → KeyVal k → List (KeyVal k × V) → Type 0
Fresh k q m = All (λ e. same_key k e.0 q ≡ false) m

-- The entries of a map: no key is there twice.
abbrev pub IsMap : {V : Type 0} (k : KeyKind) → List (KeyVal k × V) → Type 0
IsMap k [] = Unit {0}
IsMap k ((key, v) ∷ m) = All (λ e. same_key k key e.0 ≡ false) m × IsMap k m

entries-Deliver :
    {V : Type 0} (k : KeyKind) (encode : V → M Encoder (Unit {0})) (wire : V → List ℕ)
    (es : List (KeyVal k × V))
    → All (λ e. FitsKey k e.0) es
    → All (λ e. Delivers (encode e.1) (wire e.1)) es
    → All (λ e. Delivers (encode_entry k encode e) (wire_entry k wire e)) es
unfolding encode_entry wire_entry
entries-Deliver k encode wire [] keys values = tt
entries-Deliver k encode wire ((key, v) ∷ es) keys values = (
  Delivers-then (write_key k key) (encode v) (wire_key k key) (wire v)
      (Delivers-of_write _ _ (write_key-Encodes k key keys.0)) values.0,
  entries-Deliver k encode wire es keys.1 values.1,
)

pub encode_map-Delivers :
    {V : Type 0} (k : KeyKind) (encode : V → M Encoder (Unit {0})) (wire : V → List ℕ)
    (m : List (KeyVal k × V))
    → All (λ e. FitsKey k e.0) m
    → All (λ e. Delivers (encode e.1) (wire e.1)) m
    → Delivers (encode_map k encode m) (wire_map k wire m)
unfolding encode_map wire_map
encode_map-Delivers k encode wire m keys values =
    Delivers-then (emit (write_uvarint (length m))) (encode_each (encode_entry k encode) m)
      (uvarint_bytes (length m)) (wire_each (wire_entry k wire) m)
      (Delivers-of_write _ _ (λ e. rw write_uvarint_lem))
      (encode_each-Delivers (encode_entry k encode) (wire_entry k wire) m
        (entries-Deliver k encode wire m keys values))

put-Fresh :
    {V : Type 0} (k : KeyKind) (q : KeyVal k) (w : V) (m : List (KeyVal k × V))
    → Fresh k q m
    → put (same_key k) q w m ≡ m ++ ((q, w) ∷ [])
unfolding put
put-Fresh k q w [] h = refl
put-Fresh k q w (e ∷ m) h = rw (h.0, put-Fresh k q w m h.1)

-- All entries that are still to come are new to the map, and to one another.
abbrev pub AllNew : {V : Type 0} (k : KeyKind) → List (KeyVal k × V) → List (KeyVal k × V) → Type 0
AllNew k m es = All (λ e. Fresh k e.0 m) es

Fresh-snoc :
    {V : Type 0} (k : KeyKind) (x q : KeyVal k) (w : V) (m : List (KeyVal k × V))
    → Fresh k x m
    → same_key k q x ≡ false
    → Fresh k x (m ++ ((q, w) ∷ []))
Fresh-snoc k x q w [] f g = (g, tt)
Fresh-snoc k x q w (e ∷ m) f g = (f.0, Fresh-snoc k x q w m f.1 g)

AllNew-put :
    {V : Type 0} (k : KeyKind) (q : KeyVal k) (w : V) (m es : List (KeyVal k × V))
    → AllNew k m es
    → All (λ e. same_key k q e.0 ≡ false) es
    → AllNew k (m ++ ((q, w) ∷ [])) es
AllNew-put k q w m [] h g = tt
AllNew-put k q w m (e ∷ es) h g = (Fresh-snoc k e.0 q w m h.0 g.0, AllNew-put k q w m es h.1 g.1)

pub AllNew-nil : {V : Type 0} (k : KeyKind) (es : List (KeyVal k × V)) → AllNew k [] es
AllNew-nil k es = All-of _ es (λ e. tt)

-- The map after entries have been stored one after the other.
unfoldable pub put_all :
    {V : Type 0} (k : KeyKind) → List (KeyVal k × V) → List (KeyVal k × V) → List (KeyVal k × V)
put_all k [] m = m
put_all k ((key, v) ∷ es) m = put_all k es (put (same_key k) key v m)

put_all-AllNew :
    {V : Type 0} (k : KeyKind) (m es : List (KeyVal k × V))
    → IsMap k es
    → AllNew k m es
    → put_all k es m ≡ m ++ es
unfolding put_all
put_all-AllNew k m [] once new = rw append-nil
put_all-AllNew k m ((key, v) ∷ es) once new =
    ap (put_all k es) (put-Fresh k key v m new.0)
    ∙ put_all-AllNew k (m ++ ((key, v) ∷ [])) es once.1 (AllNew-put k key v m es new.1 once.0)
    ∙ append_assoc m ((key, v) ∷ []) es

pub decode_entries-Decodes :
    {V : Type 0} (k : KeyKind) (decode : M Decoder V) (wire : V → List ℕ)
    (m es : List (KeyVal k × V))
    → All (λ e. FitsKey k e.0) es
    → All (λ e. Decodes decode wire e.1) es
    → (o : Origin) (front rest : List ℕ)
    → decode_entries
        (same_key k)
        (read_key k)
        decode
        (length es)
        m
        (holding o front (wire_each (wire_entry k wire) es ++ rest))
      ≡ (ok (put_all k es m), holding o (front ++ wire_each (wire_entry k wire) es) rest)
unfolding decode_entries wire_each wire_entry put_all
decode_entries-Decodes k decode wire m [] keys values o front rest = rw append-nil
decode_entries-Decodes k decode wire m ((key, v) ∷ es) keys values o front rest =
    let more = wire_each (wire_entry k wire) es in
    rw (
      append_assoc,
      append_assoc,
      read_key-Decodes k key keys.0 o front (wire v ++ (more ++ rest)),
      values.0 o (front ++ wire_key k key) (more ++ rest),
      decode_entries-Decodes k decode wire (put (same_key k) key v m) es keys.1 values.1 o
          ((front ++ wire_key k key) ++ wire v) rest,
      append_assoc front (wire_key k key) (wire v),
      append_assoc front (wire_key k key ++ wire v) more,
    )

length-wire_entry :
    {V : Type 0} (k : KeyKind) (wire : V → List ℕ) (min : ℕ) (e : KeyVal k × V)
    → min ≤ length (wire e.1)
    → 1 + min ≤ length (wire_entry k wire e)
unfolding wire_entry
length-wire_entry k wire min (key, v) h = rw length-append (omega (arith, length-wire_key k key))

-- What is asked of the value in an entry.
abbrev pub Entry : {V : Type 0} → M Decoder V → (V → List ℕ) → ℕ → V → Type 0
Entry decode wire min v = Decodes decode wire v × (min ≤ length (wire v))

-- A check that is made on a condition, and passes.
guarded :
    (b : Bool) (check : M Decoder (Unit {0})) (d : Decoder)
    → check d ≡ (ok tt, d)
    → (if b then check else pure tt) d ≡ (ok tt, d)
guarded true check d h = h
guarded false check d h = refl

pub decode_map-put_all :
    {V : Type 0} (k : KeyKind) (decode : M Decoder V) (wire : V → List ℕ) (min : ℕ)
    (m : List (KeyVal k × V))
    → All (λ e. FitsKey k e.0) m
    → All (λ e. Entry decode wire min e.1) m
    → length m ≤ max_int
    → (o : Origin) (front rest : List ℕ)
    → decode_map k min decode (holding o front (wire_map k wire m ++ rest))
      ≡ (ok (put_all k m []), holding o (front ++ wire_map k wire m) rest)
unfolding decode_map wire_map
decode_map-put_all k decode wire min m keys values size o front rest =
    let count = uvarint_bytes (length m) in
    let body : List ℕ = wire_each (wire_entry k wire) m ++ rest in
    let room : length m * (1 + min) ≤ length body =
      rw (length-append (wire_each (wire_entry k wire) m) rest) (
        omega (
          arith,
          length-wire_each (wire_entry k wire) (1 + min) m
              (All-map _ _ m (λ e h. length-wire_entry k wire min e h.1) values),
        )) in
    rw (
      append_assoc,
      read_count-holding o (length m) front body size,
      guarded (ltb 1 (length m) && ltb 0 (1 + min)) (ensure_elements (length m) (1 + min))
          (holding o (front ++ count) body)
          (ensure_elements-holding o (length m) (1 + min) (front ++ count) body room),
      decode_entries-Decodes k decode wire [] m keys (All-map _ _ m (λ e h. h.0) values) o
          (front ++ count) rest,
      append_assoc,
    )

pub put_all-IsMap :
    {V : Type 0} (k : KeyKind) (m : List (KeyVal k × V)) → IsMap k m → put_all k m [] ≡ m
put_all-IsMap k m once = put_all-AllNew k [] m once (AllNew-nil k m)

pub decode_map-Decodes :
    {V : Type 0} (k : KeyKind) (decode : M Decoder V) (wire : V → List ℕ) (min : ℕ)
    (m : List (KeyVal k × V))
    → All (λ e. FitsKey k e.0) m
    → All (λ e. Entry decode wire min e.1) m
    → IsMap k m
    → length m ≤ max_int
    → Decodes (decode_map k min decode) (wire_map k wire) m
decode_map-Decodes k decode wire min m keys values once size o front rest =
    decode_map-put_all k decode wire min m keys values size o front rest
    ∙ ap (λ es. (ok es, holding o (front ++ wire_map k wire m) rest)) (put_all-IsMap k m once)

pub length-wire_map :
    {V : Type 0} (k : KeyKind) (wire : V → List ℕ) (m : List (KeyVal k × V))
    → 1 ≤ length (wire_map k wire m)
unfolding wire_map
length-wire_map k wire m = rw length-append (omega (arith, length-uvarint_bytes (length m)))
