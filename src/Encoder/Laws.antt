-- ===== src/Encoder/Laws.antt =====
-- encoder.go: the Write methods in terms of `write`, and writes in a row.
use binary.Prelude.{ℕ, ◌-◌, ◌≤◌, ◌≡◌, refl, ap, arith, length, take, leb}
use binary.Prelude.{
  List, [], ◌∷◌, ◌++◌, Option, none, some, append_assoc, append-nil, length-append,
}
use binary.Prelude.{zero, suc}
use binary.Base.{Error, short_write, nil_writer}
use binary.Prelude.{if◌then◌else◌}
use binary.Encoder.{new_encoder}
use binary.Prelude.{Bool}
use binary.Prelude.Int.{ℤ}
use binary.Varint.{uvarint_bytes, varint_bytes}
use binary.Encoder.{write_uvarint, write_varint, write_bool, bool_byte, write_uint16, write_uint32}
use binary.Encoder.{write_uint64, write_float32, write_float64, write_complex64, write_complex128}
use binary.Encoder.{little_endian, write_string, write_tagged}
use binary.Encoder.{Writer, buffer, pipe, absent, Encoder, write}

take_over :
    (n : ℕ) (xs ys : List ℕ) → length xs ≤ n → take n (xs ++ ys) ≡ xs ++ take (n - length xs) ys
take_over n [] ys h = ground arith
take_over zero (x ∷ xs) ys h = absurd (omega arith)
take_over (suc n) (x ∷ xs) ys h = ground (arith, take_over n xs ys (omega arith))

take_under : (n : ℕ) (xs ys : List ℕ) → n ≤ length xs → take n (xs ++ ys) ≡ take n xs
take_under zero xs ys h = refl
take_under (suc n) [] ys h = absurd (omega arith)
take_under (suc n) (x ∷ xs) ys h = ap (◌∷◌ x) (take_under n xs ys (omega arith))

-- The encoder with a given writer and error, after two writes.
write-write_parts :
    (p q : List ℕ) (w : Writer) (f : Option Error)
    → (let e : Encoder = record { out = w; failure = f } in write q (write p e))
      ≡ write (p ++ q) (record { out = w; failure = f })
unfolding write
write-write_parts p q (buffer b) none = ground (arith, append_assoc b p q)
write-write_parts p q (pipe room b) none = ground (
  arith,
  length-append p q,
  take_over room p q,
  take_under room p q,
  append_assoc b p q,
  append_assoc b p (take (room - length p) q),
)
write-write_parts p q absent none = refl
write-write_parts p q w (some x) = refl

-- Two writes in a row leave the encoder as one write of both does, on every writer: one without room
-- for all of it gets the same bytes, and nothing is written after a failure.
pub write-write : (p q : List ℕ) (e : Encoder) → write q (write p e) ≡ write (p ++ q) e
write-write p q e = write-write_parts p q e.out e.failure

write-nil_parts :
    (w : Writer) (f : Option Error)
    → write [] (record { out = w; failure = f }) ≡ record { out = w; failure = f }
unfolding write
write-nil_parts (buffer b) none = rw append-nil
write-nil_parts (pipe room b) none = ground (arith, append-nil b)
write-nil_parts absent none = refl
write-nil_parts w (some x) = refl

pub write-nil : (e : Encoder) → write [] e ≡ e
write-nil e = write-nil_parts e.out e.failure

-- Every Write method as one `write` of its bytes.
pub write_uvarint_lem : (x : ℕ) (e : Encoder) → write_uvarint x e ≡ write (uvarint_bytes x) e
unfolding write_uvarint
write_uvarint_lem x e = refl

pub write_varint_lem : (v : ℤ) (e : Encoder) → write_varint v e ≡ write (varint_bytes v) e
unfolding write_varint
write_varint_lem v e = refl

pub write_bool_lem : (b : Bool) (e : Encoder) → write_bool b e ≡ write (bool_byte b) e
unfolding write_bool
write_bool_lem b e = refl

pub write_fixed_lem :
    (n : ℕ) (e : Encoder)
    → (write_uint16 n e ≡ write (little_endian 2 n) e)
      × (write_float32 n e ≡ write (little_endian 4 n) e)
      × (write_float64 n e ≡ write (little_endian 8 n) e)
unfolding write_uint16 write_uint32 write_uint64 write_float32 write_float64
write_fixed_lem n e = (refl, refl, refl)

pub write_complex_lem :
    (re im : ℕ) (e : Encoder)
    → (write_complex64 re im e ≡ write (little_endian 4 re ++ little_endian 4 im) e)
      × (write_complex128 re im e ≡ write (little_endian 8 re ++ little_endian 8 im) e)
unfolding write_complex64 write_complex128
write_complex_lem re im e = (refl, refl)

pub write_string_lem :
    (v : List ℕ) (e : Encoder) → write_string v e ≡ write (uvarint_bytes (length v) ++ v) e
unfolding write_string
write_string_lem v e = rw write_uvarint_lem (write-write (uvarint_bytes (length v)) v e)

-- WriteTagged does what one write of the tag, the length of the body and the body does, on every
-- encoder, also where the body is empty.
pub write_tagged_lem :
    (tag : ℕ) (body : List ℕ) (e : Encoder)
    → write_tagged tag body e ≡ write (uvarint_bytes tag ++ (uvarint_bytes (length body) ++ body)) e
unfolding write_tagged
write_tagged_lem tag [] e =
    rw (write_uvarint_lem, write_uvarint_lem, append-nil) (write-write (uvarint_bytes tag) _ e)
write_tagged_lem tag (x ∷ body) e = ground (
  arith,
  write_uvarint_lem tag e,
  write_uvarint_lem (length (x ∷ body)) (write (uvarint_bytes tag) e),
  write-write (uvarint_bytes tag) (uvarint_bytes (length (x ∷ body))) e,
  write-write (uvarint_bytes tag ++ uvarint_bytes (length (x ∷ body))) (x ∷ body) e,
  append_assoc (uvarint_bytes tag) (uvarint_bytes (length (x ∷ body))) (x ∷ body),
)

-- A write to a new encoder: a buffer takes it all, another writer what there is room for.
pub write-buffer :
    (p b : List ℕ)
    → write p (new_encoder (buffer b)) ≡ record { out = buffer (b ++ p); failure = none }
unfolding write new_encoder
write-buffer p b = refl

pub write-pipe :
    (p b : List ℕ) (room : ℕ)
    → write p (new_encoder (pipe room b)) ≡ (
        if leb (length p) room
        then (record { out = pipe (room - length p) (b ++ p); failure = none })
        else (record { out = pipe 0 (b ++ take room p); failure = some short_write }))
unfolding write new_encoder
write-pipe p b room = ground arith

pub write-absent :
    (p : List ℕ) → write p (new_encoder absent) ≡ record { out = absent; failure = some nil_writer }
unfolding write new_encoder
write-absent p = refl

pub write-failed : (p : List ℕ) (e : Encoder) {x : Error} → e.failure ≡ some x → write p e ≡ e
unfolding write
write-failed p e h = rw h refl

pub write_uint_lem :
    (n : ℕ) (e : Encoder)
    → (write_uint16 n e ≡ write (little_endian 2 n) e)
      × (write_uint32 n e ≡ write (little_endian 4 n) e)
      × (write_uint64 n e ≡ write (little_endian 8 n) e)
unfolding write_uint16 write_uint32 write_uint64
write_uint_lem n e = (refl, refl, refl)
