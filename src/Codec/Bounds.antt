-- ===== src/Codec/Bounds.antt =====
-- codecs.go: the number of elements that a slice codec makes from the bytes of a slice reader, and counts
-- that there are too few bytes for.
use binary.Prelude.{ℕ, ◌≤◌, ◌<◌, ◌≡◌, arith, length, List, ◌++◌}
use binary.Prelude.{Option}
use binary.Base.{ok, err, eof, M, next, next-ok}
use binary.Reader
use binary.Reader.{SliceReader}
use binary.Reader.Safety.{IsValid}
use binary.Decoder.{Decoder, memory, read_string, resize_slice}
use binary.Decoder.Bounds.{checked}
use binary.Varint.{uvarint_bytes}
use binary.Stream.{max_int}
use binary.Decoder.Laws.{in_memory, holding}
use binary.Decoder.Checks.{read_count-holding, slice-short}
use binary.Codec.Varints.{count_of, decode_varints, decode_varuints}
use binary.Codec.{slice_of, Width}
use binary.Codec.Loops.{decode_each, length-decode_each}
use binary.Codec.Strings.{decode_strings}
use binary.Codec.Pointer.{decode_pointer, decode_slice_of_ptr}

each-le :
    {A : Type 0} (decode : M Decoder A) (size n left : ℕ) (s d : Decoder) (v : List A)
    → n ≤ left
    → next (resize_slice size n s) (λ u. decode_each decode n) ≡ (ok v, d)
    → length v ≤ left
each-le decode size n left s d v le h =
    let (u, t, e, g) = next-ok (resize_slice size n s) _ v d h in
    omega (arith, length-decode_each decode n t d v g)

-- On any bytes in memory, from a position inside them, a slice of strings that DecodeTo returns has at
-- most as many elements as there are bytes left.
pub decode_strings-le :
    (size : ℕ) (r : SliceReader) (v : List (List ℕ)) (d : Decoder)
    → IsValid r
    → decode_strings (slice_of size) (memory r) ≡ (ok v, d)
    → length v ≤ Reader.len r
unfolding decode_strings
decode_strings-le size r v d inside h =
    let (n, s, le, g) = checked _ r v d inside h in
    each-le read_string size n (Reader.len r) s d v le g

-- On any bytes in memory, from a position inside them, a slice of pointers that DecodeTo returns has
-- at most as many elements as there are bytes left, whatever decodes the values behind the pointers.
pub decode_slice_of_ptr-le :
    {A : Type 0} (decode : M Decoder A) (r : SliceReader) (v : List (Option A)) (d : Decoder)
    → IsValid r
    → decode_slice_of_ptr decode (memory r) ≡ (ok v, d)
    → length v ≤ Reader.len r
unfolding decode_slice_of_ptr
decode_slice_of_ptr-le decode r v d inside h =
    let (n, s, le, g) = checked _ r v d inside h in
    each-le (decode_pointer decode) 8 n (Reader.len r) s d v le g

-- A count in memory that is larger than the number of bytes behind it is refused with io.EOF, and the decoder
-- stops right behind the count, with no element read, for slices of strings, slices of pointers and
-- slices of signed and of unsigned integers of every width.
pub decode-too_short :
    {A : Type 0} (decode : M Decoder A) (size n : ℕ) (w : Width) (front rest : List ℕ)
    → n ≤ max_int
    → length rest < n
    → (decode_strings (slice_of size) (holding in_memory front (uvarint_bytes n ++ rest))
        ≡ (err eof, holding in_memory (front ++ uvarint_bytes n) rest))
      × (decode_slice_of_ptr decode (holding in_memory front (uvarint_bytes n ++ rest))
          ≡ (err eof, holding in_memory (front ++ uvarint_bytes n) rest))
      × (decode_varints w (holding in_memory front (uvarint_bytes n ++ rest))
          ≡ (err eof, holding in_memory (front ++ uvarint_bytes n) rest))
      × (decode_varuints w (holding in_memory front (uvarint_bytes n ++ rest))
          ≡ (err eof, holding in_memory (front ++ uvarint_bytes n) rest))
unfolding decode_strings decode_slice_of_ptr decode_varints decode_varuints count_of
decode-too_short decode size n w front rest most few =
    let count = read_count-holding in_memory n front rest most in
    let short = (slice-short n (front ++ uvarint_bytes n) rest few).1 in
    (rw (count, short), rw (count, short), rw (count, short), rw (count, short))
