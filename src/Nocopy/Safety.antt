-- ===== src/Nocopy/Safety.antt =====
-- nocopy/types.go: every codec of the package on any input.
use binary.Prelude.{length, ◌==◌, ◌%◌, not}
use binary.Prelude.Int.{pos}
use binary.Base.{unexpected_eof}
use binary.Decoder.{Decoder}
use binary.Decoder.Safety.{
  Safe, pure-Safe, if-Safe, bind-Safe, then-Safe, check-Safe, Moves, IsSound,
}
use binary.Decoder.Safety.Calls.{
  read_uvarint-Safe, read_uint-Safe, read_slice-Safe, decode_length-Safe, slice-Safe,
}
use binary.Memory.{Layout}
use binary.Nocopy.{
  integers_body, decode_integers, decode_bytes, decode_string, bools_body, decode_bools,
}
use binary.Nocopy.Maps.{decode_byte_map, decode_hash_map, decode_dictionary}
use binary.Nocopy.Maps.Safety.{decode_byte_map-Safe, decode_hash_map-Safe, decode_dictionary-Safe}

integers-Safe : (layout : Layout) → Safe (decode_integers layout)
unfolding decode_integers integers_body
integers-Safe layout = bind-Safe read_uint-Safe.2 λ l. if-Safe (l == 0) (pure-Safe _) (
    bind-Safe (decode_length-Safe l) λ n.
      then-Safe (check-Safe (not (n % layout.size == 0)) unexpected_eof)
        (bind-Safe (slice-Safe (pos n)) (λ b. pure-Safe _)))

bytes-Safe : Safe decode_bytes
unfolding decode_bytes
bytes-Safe = bind-Safe read_slice-Safe (λ b. if-Safe (length b == 0) (pure-Safe _) (pure-Safe b))

string-Safe : Safe decode_string
unfolding decode_string
string-Safe = read_slice-Safe

bools-Safe : Safe decode_bools
unfolding decode_bools bools_body
bools-Safe = bind-Safe read_uvarint-Safe λ l.
    if-Safe (l == 0) (pure-Safe _)
      (bind-Safe (bind-Safe (decode_length-Safe l) (λ n. slice-Safe (pos n))) (λ b. pure-Safe _))

-- DecodeTo of every codec of the package, on any bytes, in memory from a position inside the buffer or from
-- a stream, does not panic, keeps the buffer, and moves forward only and not past the end.
pub nocopy-Moves :
    (layout : Layout) (d : Decoder)
    → IsSound d
    → Moves d (decode_integers layout d)
      × Moves d (decode_bytes d)
      × Moves d (decode_string d)
      × Moves d (decode_bools d)
      × Moves d (decode_byte_map d)
      × Moves d (decode_hash_map d)
      × Moves d (decode_dictionary d)
nocopy-Moves layout d v = (
  (integers-Safe layout).moves d v,
  bytes-Safe.moves d v,
  string-Safe.moves d v,
  bools-Safe.moves d v,
  decode_byte_map-Safe.moves d v,
  decode_hash_map-Safe.moves d v,
  decode_dictionary-Safe.moves d v,
)
