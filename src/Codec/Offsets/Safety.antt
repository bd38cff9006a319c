-- ===== src/Codec/Offsets/Safety.antt =====
-- A field at its offset, on any input.
use binary.Prelude.{ℕ, ◌==◌, ◌/◌, leb, length, List}
use binary.Base.{M}
use binary.Stream
use binary.Stream.Safety.{read_full-Drains}
use binary.Decoder.{Decoder, memory, stream}
use binary.Decoder.Safety.{
  Safe, Moves, IsSound, pure-Safe, if-Safe, bind-Safe, then-Safe, by_source-Safe,
}
use binary.Decoder.Safety.Calls.{
  lift_stream-Moves, read_some-Safe, read_count-Safe, ensure_available-Safe, resize_slice-Safe,
  read_slice-Safe, read_bool-Safe, read_varint-Safe, read_uvarint-Safe, read_float-Safe,
  read_complex-Safe,
}
use binary.Codec.{
  Codec, primitive, pointer, byte_slice, bool_slice, string_slice, fixed_slice, varint_slice,
  varuint_slice, collection, slice_of_ptr, struct, map_of, string_map, uint64_map, union, Val,
}
use binary.Codec.{
  Width, w8, w16, w32, w64, bits, string, bool, int, uint, float32, float64, complex64, complex128,
}
use binary.Codec.Varints.Safety.{unsigned-Moves}
use binary.Codec.Offsets.{
  read_string_over, room_in, read_over, read_all, fill_bytes, read_bytes_over, read_varuints_over,
  read_direct,
}

read_string_over-Safe : (old : List ℕ) → Safe (read_string_over old)
unfolding read_string_over
read_string_over-Safe old = bind-Safe read_slice-Safe (λ b. pure-Safe _)

room_in-Safe : (capacity size n : ℕ) → Safe (room_in capacity size n)
unfolding room_in
room_in-Safe capacity size n =
    if-Safe (leb n capacity) (pure-Safe tt)
      (then-Safe (ensure_available-Safe n) (resize_slice-Safe size n))

read_over-Safe : (buffer : List ℕ) → Safe (read_over buffer)
unfolding read_over
read_over-Safe buffer = bind-Safe (read_some-Safe (length buffer)) (λ got. pure-Safe _)

read_all-Moves : (n : ℕ) (d : Decoder) → IsSound d → Moves d (read_all n d)
unfolding read_all
read_all-Moves n (memory r) v = (read_some-Safe n).moves (memory r) v
read_all-Moves n (stream r) v = lift_stream-Moves r (Stream.read_full n r) (read_full-Drains n r)

fill_bytes-Safe : (old : List ℕ) (n : ℕ) → Safe (fill_bytes old n)
unfolding fill_bytes
fill_bytes-Safe old n =
    if-Safe (n == 0) (pure-Safe _)
      (by_source-Safe (record { moves = read_all-Moves n }) (read_over-Safe _))

read_bytes_over-Safe : (old : List ℕ) → Safe (read_bytes_over old)
unfolding read_bytes_over
read_bytes_over-Safe old =
    bind-Safe read_count-Safe λ n. then-Safe (room_in-Safe (length old) 1 n) (fill_bytes-Safe old n)

read_varuints_over-Safe : (capacity : ℕ) (w : Width) → Safe (read_varuints_over capacity w)
unfolding read_varuints_over
read_varuints_over-Safe capacity w =
    bind-Safe read_count-Safe
      λ n. then-Safe (room_in-Safe capacity (bits w / 8) n) (record { moves = unsigned-Moves w n })

pub read_direct-Safe :
    (old : List ℕ) (c : Codec) {through : M Decoder (Val c)}
    → Safe through
    → Safe (read_direct old c through)
unfolding read_direct
read_direct-Safe old (primitive string) h = read_string_over-Safe old
read_direct-Safe old (primitive bool) h = read_bool-Safe
read_direct-Safe old (primitive (int w)) h = bind-Safe read_varint-Safe (λ v. pure-Safe _)
read_direct-Safe old (primitive (uint w)) h = bind-Safe read_uvarint-Safe (λ v. pure-Safe _)
read_direct-Safe old (primitive float32) h = read_float-Safe.0
read_direct-Safe old (primitive float64) h = read_float-Safe.1
read_direct-Safe old (primitive complex64) h = read_complex-Safe.0
read_direct-Safe old (primitive complex128) h = read_complex-Safe.1
read_direct-Safe old byte_slice h = read_bytes_over-Safe old
read_direct-Safe old (varuint_slice w8) h = h
read_direct-Safe old (varuint_slice w16) h = read_varuints_over-Safe (length old) w16
read_direct-Safe old (varuint_slice w32) h = read_varuints_over-Safe (length old) w32
read_direct-Safe old (varuint_slice w64) h = read_varuints_over-Safe (length old) w64
read_direct-Safe old (pointer c) h = h
read_direct-Safe old bool_slice h = h
read_direct-Safe old (string_slice sh) h = h
read_direct-Safe old (fixed_slice sh f) h = h
read_direct-Safe old (varint_slice n) h = h
read_direct-Safe old (collection sh c) h = h
read_direct-Safe old (slice_of_ptr c) h = h
read_direct-Safe old (struct fs) h = h
read_direct-Safe old (map_of k c) h = h
read_direct-Safe old (string_map p) h = h
read_direct-Safe old uint64_map h = h
read_direct-Safe old (union arms) h = h
