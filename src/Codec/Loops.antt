-- ===== src/Codec/Loops.antt =====
-- The loops that encode and decode the elements of a slice, an array or a map in order.
use binary.Prelude.{ℕ, zero, suc, ◌≡◌, ap, arith, length, All}
use binary.Prelude.{List, [], ◌∷◌, ◌++◌, append_assoc, append-nil}
use binary.Prelude.{sym, ◌∙◌}
use binary.Base.{next-ok, value-eq}
use binary.Base.{ok, M, ◌>>=◌, ◌>>◌, pure, wire_each}
use binary.Prelude.{if◌then◌else◌}
use binary.Encoder.{Encoder, write, has_buffer}
use binary.Encoder.Laws.{write-write, write-nil}
use binary.Decoder.{Decoder}
use binary.Decoder.Laws.{Origin, holding}
use binary.Decoder.Safety.{Safe, pure-Safe, bind-Safe}

-- A call of the encoder's Write methods.
abbrev pub emit : (Encoder → Encoder) → M Encoder (Unit {0})
emit f e = (ok tt, f e)

-- `encode v` writes `wire v`, on every encoder.
abbrev pub Encodes : {A : Type 0} → (A → M Encoder (Unit {0})) → (A → List ℕ) → A → Type 0
Encodes encode wire v = (e : Encoder) → encode v e ≡ (ok tt, write (wire v) e)

-- `decode` reads `wire v` off the front of any input as `v`, and leaves what follows.
abbrev pub Decodes : {A : Type 0} → M Decoder A → (A → List ℕ) → A → Type 0
Decodes decode wire v =
    (k : Origin) (front rest : List ℕ)
    → decode (holding k front (wire v ++ rest)) ≡ (ok v, holding k (front ++ wire v) rest)

module _ {A : Type 0} where
  unfoldable pub encode_each : (A → M Encoder (Unit {0})) → List A → M Encoder (Unit {0})
  encode_each encode [] = pure tt
  encode_each encode (x ∷ xs) = do encode x; encode_each encode xs

  pub decode_each : M Decoder A → ℕ → M Decoder (List A)
  decode_each decode zero = pure []
  decode_each decode (suc n) = do x ← decode; xs ← decode_each decode n; pure (x ∷ xs)

  pub encode_each-Encodes :
      (encode : A → M Encoder (Unit {0})) (wire : A → List ℕ) (xs : List A)
      → All (Encodes encode wire) xs
      → Encodes (encode_each encode) (wire_each wire) xs
  unfolding encode_each wire_each
  encode_each-Encodes encode wire [] h e = rw write-nil
  encode_each-Encodes encode wire (x ∷ xs) h e =
      rw (h.0 e, encode_each-Encodes encode wire xs h.1) (rw write-write)

  pub decode_each-Decodes :
      (decode : M Decoder A) (wire : A → List ℕ) (xs : List A)
      → All (Decodes decode wire) xs
      → Decodes (decode_each decode (length xs)) (wire_each wire) xs
  unfolding decode_each wire_each
  decode_each-Decodes decode wire [] h k front rest = rw append-nil
  decode_each-Decodes decode wire (x ∷ xs) h k front rest =
      rw
        (
          append_assoc,
          h.0 k front (wire_each wire xs ++ rest),
          decode_each-Decodes decode wire xs h.1 k (front ++ wire x) rest,
        )
        (ap (λ f. (ok (x ∷ xs), holding k f rest))
          (append_assoc front (wire x) (wire_each wire xs)))

  -- The bulk path writes at once what the loop writes piece by piece.
  pub bulk_or_each : (A → M Encoder (Unit {0})) → (A → List ℕ) → List A → M Encoder (Unit {0})
  unfolding encode_each
  bulk_or_each encode wire xs e =
      if has_buffer e then (ok tt, write (wire_each wire xs) e) else encode_each encode xs e

  pub bulk_or_each-Encodes :
      (encode : A → M Encoder (Unit {0})) (wire : A → List ℕ) (xs : List A)
      → All (Encodes encode wire) xs
      → Encodes (bulk_or_each encode wire) (wire_each wire) xs
  unfolding bulk_or_each
  bulk_or_each-Encodes encode wire xs h e = ground (arith, encode_each-Encodes encode wire xs h e)

-- As many elements as were asked for.
pub length-decode_each :
    {A : Type 0} (decode : M Decoder A) (n : ℕ) (d d' : Decoder) (xs : List A)
    → decode_each decode n d ≡ (ok xs, d')
    → length xs ≡ n
unfolding decode_each
length-decode_each decode zero d d' xs h = ap length (sym (value-eq h))
length-decode_each decode (suc n) d d' xs h =
    let (x, s, e, g) = next-ok (decode d) _ xs d' h in
    let (ys, t, e', g') = next-ok (decode_each decode n s) _ xs d' g in
    ap length (sym (value-eq g')) ∙ ap suc (length-decode_each decode n s t ys e')

pub All-of {ℓ κ} : {A : Type ℓ} (P : A → Type κ) (xs : List A) → ((x : A) → P x) → All P xs
All-of P [] h = tt
All-of P (x ∷ xs) h = (h x, All-of P xs h)

pub All-map {ℓ κ μ} :
    {A : Type ℓ} (P : A → Type κ) (Q : A → Type μ) (xs : List A)
    → ((x : A) → P x → Q x)
    → All P xs
    → All Q xs
All-map P Q [] f h = tt
All-map P Q (x ∷ xs) f h = (f x h.0, All-map P Q xs f h.1)

pub decode_each-Safe :
    {A : Type 0} {decode : M Decoder A} (n : ℕ) → Safe decode → Safe (decode_each decode n)
unfolding decode_each
decode_each-Safe zero h = pure-Safe []
decode_each-Safe (suc n) h =
    bind-Safe h λ x. bind-Safe (decode_each-Safe n h) λ xs. pure-Safe (x ∷ xs)
