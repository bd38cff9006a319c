-- ===== src/Codec/Bytes/Safety.antt =====
-- `byteSliceCodec` and `boolSliceCodec` on any input.
use binary.Prelude.{ℕ, ◌==◌}
use binary.Prelude.Int.{pos}
use binary.Decoder.Safety.{Safe, pure-Safe, if-Safe, bind-Safe, then-Safe, by_source-Safe}
use binary.Decoder.Safety.Calls.{
  slice-Safe, read_count-Safe, ensure_available-Safe, resize_slice-Safe, read_into-Safe,
}
use binary.Codec.Bytes.{
  bytes_from_stream, bytes_in_memory, bools_from_stream, decode_bytes, decode_bools,
}

bytes_in_memory-Safe : (n : ℕ) → Safe (bytes_in_memory n)
unfolding bytes_in_memory
bytes_in_memory-Safe n =
    then-Safe (ensure_available-Safe n)
      (then-Safe (resize_slice-Safe 1 n) (if-Safe (n == 0) (pure-Safe _) (read_into-Safe n)))

bytes_from_stream-Safe : (n : ℕ) → Safe (bytes_from_stream n)
unfolding bytes_from_stream
bytes_from_stream-Safe n = if-Safe (n == 0) (pure-Safe _) (slice-Safe (pos n))

pub decode_bytes-Safe : Safe decode_bytes
unfolding decode_bytes
decode_bytes-Safe =
    bind-Safe read_count-Safe
      λ n. by_source-Safe (bytes_from_stream-Safe n) (bytes_in_memory-Safe n)

bools_from_stream-Safe : (n : ℕ) → Safe (bools_from_stream n)
unfolding bools_from_stream
bools_from_stream-Safe n =
    bind-Safe (slice-Safe (pos n)) λ b. then-Safe (resize_slice-Safe 1 n) (pure-Safe b)

pub decode_bools-Safe : Safe decode_bools
unfolding decode_bools
decode_bools-Safe = bind-Safe read_count-Safe λ n.
    bind-Safe (by_source-Safe (bools_from_stream-Safe n) (bytes_in_memory-Safe n))
      (λ b. pure-Safe _)
