-- ===== src/Calls.antt =====
-- encoder.go and decoder.go: `Encode` and `Decode` as they are called, with the codec that they
-- remember from the call before. What `reflect` knows of types and values is a parameter; the target of
-- `Decode` holds the zero value.
pub mod Laws
pub mod Capacity
pub mod RoundTrip
use binary.Prelude.{ℕ, Bool, true, false, List, [], ◌∷◌, Option, none, some, if◌then◌else◌}
use binary.Base.{Error, nil_value, not_addressable, Result, ok, err, panic, M, next, pure}
use binary.Encoder.{Encoder}
use binary.Decoder.{Decoder}
use binary.Codec.{Codec, Val}
use binary.Codec.Delivery.{finish}
use binary.Codec.Tree.{encode, decode}
use binary.Scanner.Cache.{GoTypes, scan}

-- The fields `last` and `codec`, which are set together, and the table `schemas`.
pub record Choices (T : Type 0) : Type 0 where
  pub last : Option (T × Codec)
  pub schemas : List (T × Codec)

-- What `Decode` leaves in its target: a value of the codec that was found.
abbrev pub Decoded : Type 0
Decoded = (c : Codec) × Val c

module _ {T : Type 0} (types : GoTypes T) where
  -- `if c, err = scan(t); err != nil { return }; e.last = t; e.codec = c`
  remember : T → Result Codec × List (T × Codec) → Option (T × Codec) → Result Codec × Choices T
  remember t (ok c, table) last = (ok c, record { last = some (t, c); schemas = table })
  remember t (err x, table) last = (err x, record { last = last; schemas = table })
  remember t (panic, table) last = (panic, record { last = last; schemas = table })

  scan_other : T → M (Choices T) Codec
  unfolding remember
  scan_other t s = remember t (scan types t s.schemas) s.last

  codec_after : T → Option (T × Codec) → M (Choices T) Codec
  unfolding scan_other
  codec_after t none = scan_other t
  codec_after t (some (u, c)) = if types.same t u then pure c else scan_other t

  pub codec_for : T → M (Choices T) Codec
  unfolding codec_after
  codec_for t s = codec_after t s.last s

  -- The codec's own part, on the encoder or the decoder that the choices belong to.
  with_codec :
      {S B : Type 0} → Result Codec × Choices T → S → (Codec → M S B) → Result B × (S × Choices T)
  with_codec (ok c, s) e f = let out = f c e in (out.0, (out.1, s))
  with_codec (err x, s) e f = (err x, (e, s))
  with_codec (panic, s) e f = (panic, (e, s))

  -- `reflect.Indirect(reflect.ValueOf(v))` is not valid, or a value of a type, which a codec sees by
  -- `seen`. `Grow`, which `Encode` calls on a buffer before it writes an array or a slice, only makes room.
  module _ (Value : T → Type 0) (seen : (t : T) → Value t → (c : Codec) → Val c) where
    pub encode_any : Option ((t : T) × Value t) → M (Encoder × Choices T) (Unit {0})
    unfolding with_codec
    encode_any none s = (err nil_value, s)
    encode_any (some (t, v)) (e, s) =
        with_codec (codec_for t s) e (λ c. finish (encode c (seen t v c)))

  -- The target has an address or not.
  pub decode_any : Option T → M (Decoder × Choices T) Decoded
  unfolding with_codec
  decode_any none s = (err not_addressable, s)
  decode_any (some t) (d, s) =
      with_codec (codec_for t s) d (λ c d. next (decode c d) (λ v. pure (c, v)))
