-- ===== src/Codec/Direct/Stale.antt =====
-- A field of bytes on input that ends inside it.
use binary.Prelude.{ℕ, ◌≤◌, ◌<◌, ◌≡◌, arith, ◌==◌, leb, length, take, drop, true, false}
use binary.Prelude.{List, ◌++◌, length-take}
use binary.Base.{ok, err, eof}
use binary.Varint.{uvarint_bytes}
use binary.Stream.{max_int}
use binary.Reader.View.{read-at_short}
use binary.Decoder.{Decoder, read_some}
use binary.Decoder.Laws.{in_memory, holding}
use binary.Decoder.Checks.{read_count-holding}
use binary.Codec.Bytes.{decode_bytes, decode_bytes-short}
use binary.Codec.Offsets.{room_in, read_over, fill_bytes, read_bytes_over}

fill_bytes-short :
    (old body front : List ℕ) (n : ℕ)
    → 0 < length body
    → length body < n
    → n ≤ length old
    → (fill_bytes old n (holding in_memory front body)).0
      ≡ ok (body ++ drop (length body) (take n old))
unfolding fill_bytes read_over read_some holding
fill_bytes-short old body front n h g f =
    let whole : leb n (length old) ≡ true = ground arith in
    let some : (n == 0) ≡ false = ground arith in
    rw (whole, some, length-take n old f, read-at_short n front body h (omega arith))

room_in-whole :
    (capacity size n : ℕ) (d : Decoder) → n ≤ capacity → room_in capacity size n d ≡ (ok tt, d)
unfolding room_in
room_in-whole capacity size n d h = let whole : leb n capacity ≡ true = ground arith in rw whole

-- Where the input in memory ends inside a field of bytes, after one byte at least, and the target's slice
-- has the capacity for the whole field, DecodeTo of the field at its offset succeeds: behind the bytes
-- that are there stand those that the target held before. The codec of byte slices returns io.EOF on the
-- same input.
pub read_bytes_over-stale :
    (old body front : List ℕ) (n : ℕ)
    → 0 < length body
    → length body < n
    → n ≤ length old
    → n ≤ max_int
    → ((read_bytes_over old (holding in_memory front (uvarint_bytes n ++ body))).0
        ≡ ok (body ++ drop (length body) (take n old)))
      × ((decode_bytes (holding in_memory front (uvarint_bytes n ++ body))).0 ≡ err eof)
unfolding read_bytes_over
read_bytes_over-stale old body front n h g f size = (
  rw
      (
        read_count-holding in_memory n front body size,
        room_in-whole (length old) 1 n (holding in_memory (front ++ uvarint_bytes n) body) f,
      )
      (fill_bytes-short old body (front ++ uvarint_bytes n) n h g f),
  decode_bytes-short body front n g size,
)
