-- ===== src/Decoder/Safety/Calls.antt =====
-- decoder.go: the methods of the decoder, on any input.
use binary.Prelude.{ℕ, refl, arith, ltb}
use binary.Prelude.{◌==◌, length-drop}
use binary.Prelude.Int.{ℤ, pos, negsuc}
use binary.Base.{eof, unexpected_eof, Result}
use binary.Reader
use binary.Reader.{SliceReader}
use binary.Reader.Safety.{
  Advances, read_byte-Advances, slice-Advances, read-Advances, read_uvarint-Advances,
  read_varint-Advances,
}
use binary.Stream
use binary.Stream.{StreamReader, max_int}
use binary.Stream.Safety.{
  Drains, read_byte-Drains, slice-Drains, read_uvarint-Drains, read_varint-Drains,
}
use binary.Decoder.{Decoder, memory, stream, lift_memory, lift_stream}
use binary.Decoder.{
  read_uvarint, read_varint, read_byte, slice, read_fixed, read_uint16, read_uint32, read_uint64,
}
use binary.Decoder.{
  read_float32, read_float64, read_complex64, read_complex128, read_bool, decode_length,
  read_slice_of, read_slice, read_string, read_tagged, ensure_available, ensure_elements,
}
use binary.Decoder.{
  make_slice, resize_slice, read_some, read_into, read_count, available, short_of, few_for,
}
use binary.Decoder.Safety.{
  IsSound, Moves, Safe, pure-Safe, fail-Safe, if-Safe, bind-Safe, check-Safe,
}

pub lift_memory-Moves :
    {A : Type 0} (r : SliceReader) (out : Result A × SliceReader)
    → Advances r out
    → Moves (memory r) (lift_memory out)
lift_memory-Moves r (o, s) h = record {
  returns = h.returns;
  steps = (h.keeps, h.forward, h.inside);
}

pub lift_stream-Moves :
    {A : Type 0} (r : StreamReader) (out : Result A × StreamReader)
    → Drains r out
    → Moves (stream r) (lift_stream out)
lift_stream-Moves r (o, s) h = record { returns = h.returns; steps = (h.shorter, h.same) }

read_uvarint-Moves : (d : Decoder) → IsSound d → Moves d (read_uvarint d)
unfolding read_uvarint
read_uvarint-Moves (memory r) v =
    lift_memory-Moves r (Reader.read_uvarint r) (read_uvarint-Advances r v)
read_uvarint-Moves (stream r) v =
    lift_stream-Moves r (Stream.read_uvarint r) (read_uvarint-Drains r)

pub read_uvarint-Safe : Safe read_uvarint
read_uvarint-Safe = record { moves = read_uvarint-Moves }

read_varint-Moves : (d : Decoder) → IsSound d → Moves d (read_varint d)
unfolding read_varint
read_varint-Moves (memory r) v =
    lift_memory-Moves r (Reader.read_varint r) (read_varint-Advances r v)
read_varint-Moves (stream r) v = lift_stream-Moves r (Stream.read_varint r) (read_varint-Drains r)

pub read_varint-Safe : Safe read_varint
read_varint-Safe = record { moves = read_varint-Moves }

read_byte-Moves : (d : Decoder) → IsSound d → Moves d (read_byte d)
unfolding read_byte
read_byte-Moves (memory r) v = lift_memory-Moves r (Reader.read_byte r) (read_byte-Advances r v)
read_byte-Moves (stream r) v = lift_stream-Moves r (Stream.read_byte r) (read_byte-Drains r)

pub read_byte-Safe : Safe read_byte
read_byte-Safe = record { moves = read_byte-Moves }

slice-Moves : (n : ℤ) (d : Decoder) → IsSound d → Moves d (slice n d)
unfolding slice
slice-Moves (negsuc n) d v = (fail-Safe unexpected_eof).moves d v
slice-Moves (pos n) (memory r) v =
    lift_memory-Moves r (Reader.slice (pos n) r) (slice-Advances (pos n) r v)
slice-Moves (pos n) (stream r) v =
    lift_stream-Moves r (Stream.slice (pos n) r) (slice-Drains (pos n) r)

pub slice-Safe : (n : ℤ) → Safe (slice n)
slice-Safe n = record { moves = slice-Moves n }

read_some-Moves : (n : ℕ) (d : Decoder) → IsSound d → Moves d (read_some n d)
unfolding read_some
read_some-Moves n (memory r) v = lift_memory-Moves r (Reader.read n r) (read-Advances n r v)
read_some-Moves n (stream r) v = record {
  returns = λ p. cc;
  steps = (rw (length-drop n r.bytes) (omega arith), refl);
}

pub read_some-Safe : (n : ℕ) → Safe (read_some n)
read_some-Safe n = record { moves = read_some-Moves n }

pub read_into-Safe : (n : ℕ) → Safe (read_into n)
unfolding read_into
read_into-Safe n = bind-Safe (read_some-Safe n) (λ got. pure-Safe _)

pub read_fixed-Safe : (n : ℕ) → Safe (read_fixed n)
unfolding read_fixed
read_fixed-Safe n = bind-Safe (slice-Safe (pos n)) (λ b. pure-Safe _)

pub read_uint-Safe : Safe read_uint16 × Safe read_uint32 × Safe read_uint64
unfolding read_uint16 read_uint32 read_uint64
read_uint-Safe = (read_fixed-Safe 2, read_fixed-Safe 4, read_fixed-Safe 8)

pub read_float-Safe : Safe read_float32 × Safe read_float64
unfolding read_float32 read_float64
read_float-Safe = (read_uint-Safe.1, read_uint-Safe.2)

pub read_complex-Safe : Safe read_complex64 × Safe read_complex128
unfolding read_complex64 read_complex128
read_complex-Safe = (
  bind-Safe (slice-Safe (pos 8)) (λ b. pure-Safe _),
  bind-Safe (slice-Safe (pos 16)) (λ b. pure-Safe _),
)

pub read_bool-Safe : Safe read_bool
unfolding read_bool
read_bool-Safe = bind-Safe read_byte-Safe (λ b. pure-Safe _)

pub decode_length-Safe : (n : ℕ) → Safe (decode_length n)
unfolding decode_length
decode_length-Safe n = if-Safe (ltb max_int n) (fail-Safe unexpected_eof) (pure-Safe n)

pub read_count-Safe : Safe read_count
unfolding read_count
read_count-Safe = bind-Safe read_uvarint-Safe decode_length-Safe

pub read_slice-Safe : Safe read_slice
unfolding read_slice read_slice_of
read_slice-Safe =
    bind-Safe read_uvarint-Safe λ l. bind-Safe (decode_length-Safe l) (λ n. slice-Safe (pos n))

pub read_string-Safe : Safe read_string
unfolding read_string
read_string-Safe = read_slice-Safe

pub read_tagged-Safe : Safe read_tagged
unfolding read_tagged
read_tagged-Safe =
    bind-Safe read_uvarint-Safe λ tag. bind-Safe read_slice-Safe (λ body. pure-Safe (tag, body))

pub ensure_available-Safe : (n : ℕ) → Safe (ensure_available n)
unfolding ensure_available
ensure_available-Safe n = record {
  moves = λ d v. (check-Safe (short_of n (available d)) eof).moves d v;
}

pub ensure_elements-Safe : (n min : ℕ) → Safe (ensure_elements n min)
unfolding ensure_elements
ensure_elements-Safe n min = record {
  moves = λ d v. (check-Safe (few_for n min (available d)) eof).moves d v;
}

pub resize_slice-Safe : (size n : ℕ) → Safe (resize_slice size n)
unfolding resize_slice make_slice
resize_slice-Safe size n = if-Safe (n == 0) (pure-Safe tt) (check-Safe _ unexpected_eof)
