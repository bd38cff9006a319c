-- ===== src/Marshal/Laws.antt =====
-- encoder.go and decoder.go: `Marshal`, `MarshalTo`, `Unmarshal` and `Decode` together.
use binary.Prelude.{ℕ, ◌-◌, ◌≡◌, refl, sym, ap, ◌∙◌, arith, List, [], ◌++◌, length, take}
use binary.Prelude.{leb, if◌then◌else◌}
use binary.Base.{Error, ok, err, short_write, nil_writer, ok-injective, panic}
use binary.Codec.Tree.Safety.{decode-Moves}
use binary.Prelude.{◌≢◌}
use binary.Encoder.{buffer, pipe, absent}
use binary.Decoder.{new_decoder, io_reader, bytes_buffer}
use binary.Decoder.Laws.{in_memory, streaming, holding}
use binary.Encoder.Laws.{write-buffer, write-pipe, write-absent}
use binary.Codec.{Codec, Val}
use binary.Codec.Tree.{wire}
use binary.Codec.Tree.Fits.{Fits, IsCodec}
use binary.Codec.RoundTrip.{decode_lem}
use binary.Codec.Written.{encode_lem}
use binary.Marshal.{marshal_to, marshal, unmarshal, decode_from}

module _ (c : Codec) (v : Val c) (known : IsCodec c) (fits : Fits c v) where
  encode_value-buffer : (b : List ℕ) → marshal_to c v (buffer b) ≡ (ok tt, buffer (b ++ wire c v))
  unfolding marshal_to
  encode_value-buffer b = rw (encode_lem c v known fits, write-buffer)

  -- MarshalTo of a value of its type to a writer with limited room delivers the value's wire format as
  -- far as there is room, and returns the writer's error exactly where that is not all.
  pub marshal_to-pipe :
      (room : ℕ) (b : List ℕ)
      → marshal_to c v (pipe room b) ≡ (
          if leb (length (wire c v)) room
          then (ok tt, pipe (room - length (wire c v)) (b ++ wire c v))
          else (err short_write, pipe 0 (b ++ take room (wire c v))))
  unfolding marshal_to
  marshal_to-pipe room b = rw (encode_lem c v known fits, write-pipe) (ground arith)

  -- MarshalTo of a value of its type to a nil writer returns the error for that and writes nothing.
  pub marshal_to-absent : marshal_to c v absent ≡ (err nil_writer, absent)
  unfolding marshal_to
  marshal_to-absent = rw (encode_lem c v known fits, write-absent)

  pub marshal_lem : marshal c v ≡ ok (wire c v)
  unfolding marshal
  marshal_lem = rw (encode_value-buffer []) refl

  pub unmarshal_lem : (rest : List ℕ) → unmarshal c (wire c v ++ rest) ≡ ok v
  unfolding unmarshal holding new_decoder
  unmarshal_lem rest = ap (λ out. out.0) (decode_lem c v known fits in_memory [] rest)

  -- For every codec and every value of its type, Marshal succeeds, and Unmarshal of its output,
  -- with any bytes behind it, gives the value back.
  pub unmarshal-marshal :
      (rest : List ℕ)
      → (output : List ℕ) × (marshal c v ≡ ok output) × (unmarshal c (output ++ rest) ≡ ok v)
  unmarshal-marshal rest = (wire c v, marshal_lem, unmarshal_lem rest)

  -- For every codec and every value of its type, Decode from a stream takes the value's wire format off
  -- the front and leaves the decoder at what follows, with the stream's error still to come.
  pub decode_from-stream :
      (failure : Error) (rest : List ℕ)
      → decode_from c (io_reader (record { bytes = wire c v ++ rest; failure = failure }))
        ≡ (ok v, new_decoder (io_reader (record { bytes = rest; failure = failure })))
  unfolding decode_from holding new_decoder
  decode_from-stream failure rest = decode_lem c v known fits (streaming failure) [] rest

-- Two values of a type whose wire formats, each with whatever follows it, are the same bytes are the
-- same value.
pub wire_unique :
    (c : Codec) (v w : Val c) (rest rest' : List ℕ)
    → IsCodec c
    → Fits c v
    → Fits c w
    → wire c v ++ rest ≡ wire c w ++ rest'
    → v ≡ w
wire_unique c v w rest rest' known hv hw same = ok-injective (
    sym (unmarshal_lem c v known hv rest)
    ∙ ap (unmarshal c) same
    ∙ unmarshal_lem c w known hw rest')

-- Unmarshal with any codec that the scanner makes does not panic, whatever the bytes are.
unmarshal-returns : (c : Codec) (b : List ℕ) → IsCodec c → unmarshal c b ≢ panic
unfolding unmarshal new_decoder
unmarshal-returns c b known =
    (decode-Moves c (new_decoder (bytes_buffer b)) known (omega arith)).returns
