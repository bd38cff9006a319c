-- ===== src/Codec/Custom/Laws.antt =====
-- `customCodec` over methods that belong together.
use binary.Prelude.{
  ℕ, ◌/◌, ◌≤◌, ◌≡◌, ◌≢◌, refl, arith, length, List, [], ◌∷◌, ◌++◌, append_assoc, append-nil, Bool,
  true, false, Option, none, some, ◌==◌, suc-eq-zero,
}
use binary.Prelude.Int.{pos}
use binary.Base.{Error, unexpected_eof, no_method, Result, ok, err, panic}
use binary.Varint.{uvarint_bytes}
use binary.Stream.{max_int}
use binary.Encoder.{Encoder, write, bool_byte}
use binary.Encoder.Laws.{write-write, write_uvarint_lem, write_bool_lem}
use binary.Decoder.{slice}
use binary.Decoder.Laws.{Origin, in_memory, holding, slice-holding, read_bool-holding}
use binary.Decoder.Checks.{
  read_count-holding, ensure_available-holding, by_source-holding, read_some-holding,
  valid_length_fits,
}
use binary.Codec.Loops.{Decodes}
use binary.Codec.Bytes.{wire_bytes}
use binary.Codec.Custom.{
  Methods, custom_method, write_returned, read_whole, in_memory_body, read_body, encode_found,
  encode_custom, encode_found_pointer, encode_custom_pointer, call_found, unmarshal_into, or_new,
  decode_custom, decode_custom_pointer,
}
use binary.Prelude.{length-append}
use binary.Decoder.Safety.{
  Safe, pure-Safe, fail-Safe, if-Safe, bind-Safe, then-Safe, check-Safe, by_source-Safe, value-Safe,
}
use binary.Decoder.Safety.Calls.{read_count-Safe, slice-Safe, ensure_available-Safe, read_some-Safe}

write_returned-ok :
    (b : List ℕ) (e : Encoder) → write_returned (ok b) e ≡ (ok tt, write (wire_bytes b) e)
unfolding write_returned wire_bytes
write_returned-ok b e = rw (write_uvarint_lem, write-write)

pub read_whole-holding :
    (b front rest : List ℕ)
    → read_whole (length b) (holding in_memory front (b ++ rest))
      ≡ (ok b, holding in_memory (front ++ b) rest)
unfolding read_whole
read_whole-holding [] front rest = rw append-nil
read_whole-holding (x ∷ b) front rest =
    rw (suc-eq-zero (length b), read_some-holding (x ∷ b) front rest (omega arith)) (ground arith)

in_memory_body-holding :
    (b front rest : List ℕ)
    → in_memory_body (length b) (holding in_memory front (b ++ rest))
      ≡ (ok b, holding in_memory (front ++ b) rest)
unfolding in_memory_body
in_memory_body-holding b front rest =
    rw
      (ensure_available-holding in_memory (length b) front (b ++ rest)
        (rw (length-append b rest) (omega arith)))
      (read_whole-holding b front rest)

read_body-holding :
    (k : Origin) (b front rest : List ℕ)
    → length b ≤ max_int / 2
    → read_body (holding k front (wire_bytes b ++ rest))
      ≡ (ok b, holding k (front ++ wire_bytes b) rest)
unfolding read_body wire_bytes
read_body-holding k b front rest h =
    let front' = front ++ uvarint_bytes (length b) in
    rw (
      append_assoc,
      read_count-holding k (length b) front (b ++ rest) (omega arith),
      valid_length_fits (length b) h,
      by_source-holding (slice (pos (length b))) (in_memory_body (length b)) front' (b ++ rest)
          (λ k. (ok b, holding k (front' ++ b) rest)) (λ k. slice-holding k b front' rest h)
          (in_memory_body-holding b front' rest) k,
      append_assoc,
    )

module _ {A : Type 0} (methods : Methods A) where
  -- The methods that are called on a value, and what they promise of it: the bytes of one, given to the
  -- other, make the value again, whatever its receiver held.
  pub record Inverse (can_addr : Bool) (v : A) (b : List ℕ) : Type 0 where
    pub marshal : A → Result (List ℕ)
    pub unmarshal : A → List ℕ → Result A
    pub marshals : custom_method can_addr methods.marshaler methods.ptr_marshaler ≡ some marshal
    pub unmarshals : custom_method true methods.unmarshaler methods.ptr_unmarshaler ≡ some unmarshal
    pub returns : marshal v ≡ ok b
    pub back : (old : A) → unmarshal old b ≡ ok v
    pub small : length b ≤ max_int / 2

  module _ (can_addr : Bool) (v : A) (b : List ℕ) (h : Inverse can_addr v b) where
    unmarshal_into-Inverse : (old : A) → unmarshal_into methods old b ≡ ok v
    unfolding unmarshal_into call_found
    unmarshal_into-Inverse old = rw (h.unmarshals, h.back old)

    decode_custom-body : (old : A) → Decodes (decode_custom methods old) (λ w. wire_bytes b) v
    unfolding decode_custom
    decode_custom-body old k front rest =
        rw (read_body-holding k b front rest h.small, unmarshal_into-Inverse old)

    -- A value whose methods undo each other is encoded as the bytes that its MarshalBinary returns behind
    -- their number, and DecodeTo, in memory or from a stream and whatever the target holds, takes those
    -- bytes off the front and gives the value back.
    pub decode_custom-encode_custom :
        (old : A) (e : Encoder) (k : Origin) (front rest : List ℕ)
        → (encode_custom methods can_addr v e ≡ (ok tt, write (wire_bytes b) e))
          × (decode_custom methods old (holding k front (wire_bytes b ++ rest))
              ≡ (ok v, holding k (front ++ wire_bytes b) rest))
    unfolding encode_custom encode_found
    decode_custom-encode_custom old e k front rest =
        (rw (h.marshals, h.returns) (write_returned-ok b e), decode_custom-body old k front rest)

    abbrev pub wire_some : List ℕ
    wire_some = bool_byte false ++ wire_bytes b

    -- The same for a pointer to such a value, which has a byte in front that says that it is not nil; a
    -- nil pointer is one byte, which makes the target nil.
    pub decode_custom_pointer-encode_custom_pointer :
        (blank : A) (old : Option A) (e : Encoder) (k : Origin) (front rest : List ℕ)
        → (encode_custom_pointer methods can_addr (some v) e ≡ (ok tt, write wire_some e))
          × (decode_custom_pointer methods blank old (holding k front (wire_some ++ rest))
              ≡ (ok (some v), holding k (front ++ wire_some) rest))
          × (encode_custom_pointer methods can_addr none e ≡ (ok tt, write (bool_byte true) e))
          × (decode_custom_pointer methods blank old (holding k front (bool_byte true ++ rest))
              ≡ (ok none, holding k (front ++ bool_byte true) rest))
    unfolding encode_custom_pointer encode_found_pointer decode_custom_pointer
    decode_custom_pointer-encode_custom_pointer blank old e k front rest = (
      rw (h.marshals, h.returns, write_bool_lem, write_returned-ok, write-write) refl,
      rw (
        append_assoc,
        read_bool-holding k false front (wire_bytes b ++ rest),
        decode_custom-body (or_new blank old) k (front ++ bool_byte false) rest,
        append_assoc,
      ),
      rw (h.marshals, write_bool_lem),
      rw (read_bool-holding k true front rest),
    )

read_whole-Safe : (n : ℕ) → Safe (read_whole n)
unfolding read_whole
read_whole-Safe n = if-Safe (n == 0) (pure-Safe []) (
    bind-Safe (read_some-Safe n)
      λ got. if-Safe (length got == n) (pure-Safe got) (fail-Safe unexpected_eof))

pub unmarshal_into-found :
    {A : Type 0} (methods : Methods A) (f : A → List ℕ → Result A) (old : A) (b : List ℕ)
    → custom_method true methods.unmarshaler methods.ptr_unmarshaler ≡ some f
    → unmarshal_into methods old b ≡ f old b
unfolding unmarshal_into call_found
unmarshal_into-found methods f old b h = rw h

-- A decode with a method that does not panic does not panic either.
decode_custom-Safe :
    {A : Type 0} (methods : Methods A) (old : A)
    → ((b : List ℕ) → unmarshal_into methods old b ≢ panic)
    → Safe (decode_custom methods old)
unfolding decode_custom read_body in_memory_body
decode_custom-Safe methods old h =
    bind-Safe
      (bind-Safe read_count-Safe λ n. then-Safe (check-Safe _ unexpected_eof) (
        by_source-Safe (slice-Safe (pos n))
          (then-Safe (ensure_available-Safe n) (read_whole-Safe n))))
      (λ b. value-Safe (unmarshal_into methods old b) (h b))

-- A value without a MarshalBinary that can be called (one on pointers alone, for a value that has no
-- address) is refused with an error, and a method's own error is handed on: nothing is written then.
encode_custom-fails :
    {A : Type 0} (methods : Methods A) (can_addr : Bool) (v : A) (e : Encoder) (x : Error)
    → (custom_method can_addr methods.marshaler methods.ptr_marshaler ≡ none
        → encode_custom methods can_addr v e ≡ (err no_method, e))
      × ((m : A → Result (List ℕ))
          → custom_method can_addr methods.marshaler methods.ptr_marshaler ≡ some m
          → m v ≡ err x
          → encode_custom methods can_addr v e ≡ (err x, e))
unfolding encode_custom encode_found write_returned
encode_custom-fails methods can_addr v e x = ((λ h. rw h), λ m h g. rw (h, g))
