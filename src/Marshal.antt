-- ===== src/Marshal.antt =====
-- encoder.go and decoder.go: `Marshal`, `MarshalTo` and `Unmarshal`, the calls that a program makes.
-- The pools that they take an encoder, a buffer or a decoder from hand out one that is reset first.
pub mod Laws
use binary.Prelude.{ℕ, List, [], ◌∷◌, Option, none, some}
use binary.Base.{Error, Result, ok, err, panic, M, ◌>>=◌, ◌>>◌, next, pure}
use binary.Encoder.{Encoder, Writer, buffer, contents, new_encoder}
use binary.Codec.Delivery.{finish}
use binary.Decoder.{Decoder, Input, new_decoder, bytes_buffer}
use binary.Codec.{Codec, Val}
use binary.Codec.Tree.{encode, decode}

-- `Encode` of a value whose codec is found.
pub encode_value : (c : Codec) → Val c → M Encoder (Unit {0})
unfolding finish
encode_value c v = finish (encode c v)

pub marshal_to : (c : Codec) → Val c → Writer → Result (Unit {0}) × Writer
unfolding encode_value new_encoder
marshal_to c v w = let out = encode_value c v (new_encoder w) in (out.0, out.1.out)

-- The bytes of the buffer are the output of a call that succeeds.
output_of : Result (Unit {0}) × Writer → Result (List ℕ)
output_of (ok u, w) = ok (contents w)
output_of (err x, w) = err x
output_of (panic, w) = panic

pub marshal : (c : Codec) → Val c → Result (List ℕ)
unfolding marshal_to output_of contents
marshal c v = output_of (marshal_to c v (buffer []))

-- `Decode` into a variable that holds the zero value of its type.
pub unmarshal : (c : Codec) → List ℕ → Result (Val c)
unfolding new_decoder
unmarshal c b = (decode c (new_decoder (bytes_buffer b))).0

-- `NewDecoder(r).Decode(v)` into such a variable, with the decoder that is left for the next call.
pub decode_from : (c : Codec) → Input → Result (Val c) × Decoder
unfolding new_decoder
decode_from c r = decode c (new_decoder r)
