-- ===== src/Codec/Varints/Safety.antt =====
-- `varSliceCodec` on any input.
use binary.Prelude.{ℕ, ◌/◌}
use binary.Reader.Bulk.{varint_value, to_unsigned}
use binary.Reader.Bulk.Safety.{read_varints-Advances}
use binary.Decoder.{Decoder, memory, stream}
use binary.Decoder.Safety.{Safe, pure-Safe, bind-Safe, then-Safe, IsSound, Moves}
use binary.Decoder.Safety.Calls.{
  lift_memory-Moves, read_count-Safe, ensure_available-Safe, resize_slice-Safe, read_varint-Safe,
  read_uvarint-Safe,
}
use binary.Codec.{Width, bits}
use binary.Codec.Loops.{decode_each-Safe}
use binary.Codec.Varints.{decode_signed, decode_unsigned, count_of, decode_varints, decode_varuints}

signed-Moves : (w : Width) (n : ℕ) (d : Decoder) → IsSound d → Moves d (decode_signed w n d)
unfolding decode_signed
signed-Moves w n (memory r) v =
    lift_memory-Moves r _ (read_varints-Advances (varint_value (bits w)) n r v)
signed-Moves w n (stream r) v =
    (decode_each-Safe n (bind-Safe read_varint-Safe (λ x. pure-Safe _))).moves (stream r) v

pub unsigned-Moves : (w : Width) (n : ℕ) (d : Decoder) → IsSound d → Moves d (decode_unsigned w n d)
unfolding decode_unsigned
unsigned-Moves w n (memory r) v =
    lift_memory-Moves r _ (read_varints-Advances (to_unsigned (bits w)) n r v)
unsigned-Moves w n (stream r) v =
    (decode_each-Safe n (bind-Safe read_uvarint-Safe (λ x. pure-Safe _))).moves (stream r) v

count_of-Safe : (w : Width) → Safe (count_of w)
unfolding count_of
count_of-Safe w = bind-Safe read_count-Safe λ n.
    then-Safe (ensure_available-Safe n) (then-Safe (resize_slice-Safe (bits w / 8) n) (pure-Safe n))

pub decode_varints-Safe : (w : Width) → Safe (decode_varints w)
unfolding decode_varints
decode_varints-Safe w = bind-Safe (count_of-Safe w) λ n. record { moves = signed-Moves w n }

pub decode_varuints-Safe : (w : Width) → Safe (decode_varuints w)
unfolding decode_varuints
decode_varuints-Safe w = bind-Safe (count_of-Safe w) λ n. record { moves = unsigned-Moves w n }
