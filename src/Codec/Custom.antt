-- ===== src/Codec/Custom.antt =====
-- `customCodec`: types of the program that have `MarshalBinary` and `UnmarshalBinary` of their own.
-- The methods are parameters; their errors are `own_error`.
pub mod Laws
use binary.Prelude.{
  ℕ, ◌==◌, length, List, [], Bool, true, false, not, Option, none, some, if◌then◌else◌,
}
use binary.Prelude.Int.{pos}
use binary.Base.{
  Error, unexpected_eof, no_method, Result, ok, err, panic, M, ◌>>=◌, ◌>>◌, pure, fail, check, next,
}
use binary.Encoder.{Encoder, write, write_uvarint, write_bool}
use binary.Decoder.{
  Decoder, read_count, read_bool, valid_length, ensure_available, slice, read_some, by_source,
}
use binary.Codec.Loops.{emit}

-- The methods on the type itself and on pointers to it. `UnmarshalBinary` is given what its receiver
-- holds.
pub record Methods (A : Type 0) : Type 0 where
  pub marshaler : Option (A → Result (List ℕ))
  pub ptr_marshaler : Option (A → Result (List ℕ))
  pub unmarshaler : Option (A → List ℕ → Result A)
  pub ptr_unmarshaler : Option (A → List ℕ → Result A)

-- `customMethod`; the Boolean is `rv.CanAddr()`.
unfoldable pub custom_method : {F : Type 0} → Bool → Option F → Option F → Option F
custom_method can_addr (some m) pointer = some m
custom_method true none (some p) = some p
custom_method true none none = none
custom_method false none pointer = none

-- The bytes that the method returned, behind their number.
write_returned : Result (List ℕ) → M Encoder (Unit {0})
write_returned (ok b) = do emit (write_uvarint (length b)); emit (write b)
write_returned (err x) = fail x
write_returned panic = λ e. (panic, e)

-- `buffer = make([]byte, n); io.ReadFull(d, buffer)` in memory: a `Read` that comes up short is followed by
-- one that finds the end.
pub read_whole : ℕ → M Decoder (List ℕ)
read_whole n =
    if n == 0
    then pure []
    else (do got ← read_some n; if length got == n then pure got else fail unexpected_eof)

in_memory_body : ℕ → M Decoder (List ℕ)
unfolding read_whole
in_memory_body n = do ensure_available n; read_whole n

pub read_body : M Decoder (List ℕ)
unfolding in_memory_body
read_body = do
  n ← read_count
  check (not (valid_length 1 n)) unexpected_eof
  by_source (slice (pos n)) (in_memory_body n)

or_new : {A : Type 0} → A → Option A → A
or_new blank none = blank
or_new blank (some a) = a

module _ {A : Type 0} (methods : Methods A) where
  encode_found : Option (A → Result (List ℕ)) → A → M Encoder (Unit {0})
  unfolding write_returned
  encode_found none v = fail no_method
  encode_found (some m) v = write_returned (m v)

  -- `EncodeTo` of a value that is no pointer.
  pub encode_custom : Bool → A → M Encoder (Unit {0})
  unfolding encode_found
  encode_custom can_addr v =
      encode_found (custom_method can_addr methods.marshaler methods.ptr_marshaler) v

  encode_found_pointer : Option (A → Result (List ℕ)) → Option A → M Encoder (Unit {0})
  encode_found_pointer none v = fail no_method
  encode_found_pointer (some m) none = emit (write_bool true)
  encode_found_pointer (some m) (some v) = do emit (write_bool false); write_returned (m v)

  -- `EncodeTo` of a pointer, with the methods of its type.
  pub encode_custom_pointer : Bool → Option A → M Encoder (Unit {0})
  unfolding encode_found_pointer
  encode_custom_pointer can_addr v =
      encode_found_pointer (custom_method can_addr methods.marshaler methods.ptr_marshaler) v

  -- `m.Call`, a panic where there is no method.
  call_found : Option (A → List ℕ → Result A) → A → List ℕ → Result A
  call_found none old b = panic
  call_found (some m) old b = m old b

  pub unmarshal_into : A → List ℕ → Result A
  unfolding call_found
  unmarshal_into old b =
      call_found (custom_method true methods.unmarshaler methods.ptr_unmarshaler) old b

  -- `DecodeTo`, whose target can be addressed, over what the target holds.
  pub decode_custom : A → M Decoder A
  unfolding unmarshal_into
  decode_custom old = do b ← read_body; λ d. (unmarshal_into old b, d)

  -- `DecodeTo` of a pointer; where it is nil, it is set to a new zero value.
  pub decode_custom_pointer : A → Option A → M Decoder (Option A)
  unfolding or_new
  decode_custom_pointer blank old = do
    is_nil ← read_bool
    if is_nil then pure none else (do v ← decode_custom (or_new blank old); pure (some v))
