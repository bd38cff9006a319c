-- ===== src/Calls/Laws.antt =====
-- encoder.go and decoder.go: `Encode` and `Decode` against the same calls with no memory.
use binary.Prelude.{◌≡◌, refl, sym, ap, ◌∙◌, Bool-cases, inl, inr, List, Option, none, some}
use binary.Base.{Result, ok, err, panic, M, next, pure}
use binary.Encoder.{Encoder}
use binary.Decoder.{Decoder}
use binary.Codec.{Codec, Val}
use binary.Codec.Delivery.{finish}
use binary.Codec.Tree.{encode, decode}
use binary.Scanner.Cache.{GoTypes, scan, scan_anew, IsTable, scan-IsTable}
use binary.Calls.{
  Choices, remember, scan_other, codec_after, codec_for, with_codec, encode_any, Decoded,
  decode_any,
}

module _ {T : Type 0} (types : GoTypes T) where
  abbrev pub IsLast : Option (T × Codec) → Type 0
  IsLast none = Unit {0}
  IsLast (some (t, c)) = scan_anew types t ≡ ok c

  -- Every codec that is remembered is the one that the scan of its type returns.
  abbrev pub IsChoices : Choices T → Type 0
  IsChoices s = IsLast s.last × IsTable types s.schemas

  remember-IsChoices :
      (t : T) (out : Result Codec) (table : List (T × Codec)) (last : Option (T × Codec))
      → out ≡ scan_anew types t
      → IsLast last
      → IsTable types table
      → ((remember types t (out, table) last).0 ≡ scan_anew types t)
        × IsChoices (remember types t (out, table) last).1
  unfolding remember
  remember-IsChoices t (ok c) table last e h k = (e, (sym e, k))
  remember-IsChoices t (err x) table last e h k = (e, (h, k))
  remember-IsChoices t panic table last e h k = (e, (h, k))

  scan_other-IsChoices :
      (t : T) (s : Choices T)
      → IsChoices s
      → ((scan_other types t s).0 ≡ scan_anew types t) × IsChoices (scan_other types t s).1
  unfolding scan_other
  scan_other-IsChoices t s h =
      let found = scan-IsTable types t s.schemas h.1 in
      remember-IsChoices t (scan types t s.schemas).0 (scan types t s.schemas).1 s.last found.0 h.0
        found.1

  codec_after-IsChoices :
      (t : T) (last : Option (T × Codec)) (s : Choices T)
      → IsLast last
      → IsChoices s
      → ((codec_after types t last s).0 ≡ scan_anew types t)
        × IsChoices (codec_after types t last s).1
  unfolding codec_after
  codec_after-IsChoices t none s g h = scan_other-IsChoices t s h
  codec_after-IsChoices t (some (u, c)) s g h = elim (Bool-cases (types.same t u)) [
    | inl hit ↦ rw hit (sym (rw (types.same-eq t u hit) g), h)
    | inr miss ↦ rw miss (scan_other-IsChoices t s h)
  ]

  -- Where every codec that is remembered is the one that the scan of its type returns, the codec for a
  -- type is what a scan from scratch returns, its error included, and what is remembered then is so too.
  pub codec_for-IsChoices :
      (t : T) (s : Choices T)
      → IsChoices s
      → ((codec_for types t s).0 ≡ scan_anew types t) × IsChoices (codec_for types t s).1
  unfolding codec_for
  codec_for-IsChoices t s h = codec_after-IsChoices t s.last s h.0 h

  with_codec-next :
      {S B : Type 0} (r : Result Codec) (s : Choices T) (e : S) (f : Codec → M S B)
      → with_codec types (r, s) e f ≡ ((next (r, e) f).0, ((next (r, e) f).1, s))
  unfolding with_codec
  with_codec-next (ok c) s e f = refl
  with_codec-next (err x) s e f = refl
  with_codec-next panic s e f = refl

  -- A call on the codec for a type, with what is remembered and without.
  with_codec-anew :
      {S B : Type 0} (t : T) (s : Choices T) (e : S) (f : Codec → M S B)
      → IsChoices s
      → (s' : Choices T) × (with_codec types (codec_for types t s) e f
          ≡ ((next (scan_anew types t, e) f).0, ((next (scan_anew types t, e) f).1, s')))
        × IsChoices s'
  with_codec-anew t s e f h =
      let found = codec_for-IsChoices t s h in
      let s' = (codec_for types t s).1 in
      (
        s',
        ap (λ r. with_codec types (r, s') e f) found.0 ∙ with_codec-next (scan_anew types t) s' e f,
        found.1,
      )

  module _ (Value : T → Type 0) (seen : (t : T) → Value t → (c : Codec) → Val c) where
    -- `Encode` that remembers nothing.
    abbrev pub encode_anew : (t : T) → Value t → M Encoder (Unit {0})
    encode_anew t v e = next (scan_anew types t, e) (λ c. finish (encode c (seen t v c)))

    -- Encode with the codec of the call before, or from the table, returns what Encode with a scan from
    -- scratch returns and leaves the encoder in the same state, and what is remembered stays true.
    pub encode_any-anew :
        (t : T) (v : Value t) (e : Encoder) (s : Choices T)
        → IsChoices s
        → (s' : Choices T) × (encode_any types Value seen (some (t, v)) (e, s)
            ≡ ((encode_anew t v e).0, ((encode_anew t v e).1, s')))
          × IsChoices s'
    unfolding encode_any
    encode_any-anew t v e s h = with_codec-anew t s e (λ c. finish (encode c (seen t v c))) h

  -- `Decode` that remembers nothing.
  abbrev pub decode_anew : T → M Decoder Decoded
  decode_anew t d = next (scan_anew types t, d) (λ c d. next (decode c d) (λ v. pure (c, v)))

  -- Decode with the codec of the call before, or from the table, returns what Decode with a scan from
  -- scratch returns and leaves the decoder in the same state, and what is remembered stays true.
  pub decode_any-anew :
      (t : T) (d : Decoder) (s : Choices T)
      → IsChoices s
      → (s' : Choices T) × (decode_any types (some t) (d, s)
          ≡ ((decode_anew t d).0, ((decode_anew t d).1, s')))
        × IsChoices s'
  unfolding decode_any
  decode_any-anew t d s h = with_codec-anew t s d (λ c d. next (decode c d) (λ v. pure (c, v))) h
