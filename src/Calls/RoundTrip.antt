-- ===== src/Calls/RoundTrip.antt =====
-- encoder.go and decoder.go: what `Encode` writes, `Decode` reads, whatever the two remember.
use binary.Prelude.{ℕ, ◌≡◌, ap, ◌∙◌, List, ◌++◌, some}
use binary.Base.{ok}
use binary.Encoder.{Encoder, write}
use binary.Decoder.Laws.{Origin, holding}
use binary.Codec.{Codec, Val}
use binary.Codec.Delivery.{kept}
use binary.Codec.Tree.{wire}
use binary.Codec.Tree.Fits.{Fits, IsCodec}
use binary.Codec.RoundTrip.{decode_lem}
use binary.Codec.Written.{encode_lem}
use binary.Scanner.Theorems.{scan_type-IsCodec}
use binary.Scanner.Cache.{GoTypes, scan_anew}
use binary.Calls.{Choices, encode_any, decode_any}
use binary.Calls.Laws.{IsChoices, encode_anew, decode_anew, encode_any-anew, decode_any-anew}

module _ {T : Type 0} (types : GoTypes T) (Value : T → Type 0)
    (seen : (t : T) → Value t → (c : Codec) → Val c) where
  module _ (t : T) (v : Value t) (c : Codec) (known : scan_anew types t ≡ ok c)
      (fits : Fits c (seen t v c)) where
    is_codec : IsCodec c
    unfolding scan_anew
    is_codec = scan_type-IsCodec types.size_of (types.describe t) c known

    encode_anew-wire :
        (e : Encoder) → encode_anew types Value seen t v e ≡ kept (write (wire c (seen t v c)) e)
    encode_anew-wire e = rw known (encode_lem c (seen t v c) is_codec fits e)

    decode_anew-wire :
        (k : Origin) (front rest : List ℕ)
        → decode_anew types t (holding k front (wire c (seen t v c) ++ rest))
          ≡ (ok (c, seen t v c), holding k (front ++ wire c (seen t v c)) rest)
    decode_anew-wire k front rest = rw (known, decode_lem c (seen t v c) is_codec fits k front rest)

    -- For a value of a type that the scan takes: whatever calls came before, on either side, Encode writes
    -- the value's wire format and returns the encoder's error, and Decode into that type, of those bytes in
    -- memory or from a stream with anything behind them, returns the value and stops right behind them.
    pub decode_any-encode_any :
        (e : Encoder) (s s' : Choices T) (k : Origin) (front rest : List ℕ)
        → IsChoices types s
        → IsChoices types s'
        → (s1 : Choices T) × (s2 : Choices T) × (b : List ℕ) × (encode_any types Value seen
              (some (t, v))
              (e, s)
            ≡ ((kept (write b e)).0, ((kept (write b e)).1, s1)))
          × (decode_any types (some t) (holding k front (b ++ rest), s')
              ≡ (ok (c, seen t v c), (holding k (front ++ b) rest, s2)))
          × IsChoices types s1
          × IsChoices types s2
    decode_any-encode_any e s s' k front rest h g =
        let b : List ℕ = wire c (seen t v c) in
        let written = encode_any-anew types Value seen t v e s h in
        let read = decode_any-anew types t (holding k front (b ++ rest)) s' g in
        (
          written.0,
          read.0,
          b,
          written.1 ∙ ap (λ out. (out.0, (out.1, written.0))) (encode_anew-wire e),
          read.1 ∙ ap (λ out. (out.0, (out.1, read.0))) (decode_anew-wire k front rest),
          written.2,
          read.2,
        )
