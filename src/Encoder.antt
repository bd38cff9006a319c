-- ===== src/Encoder.antt =====
-- encoder.go: the encoder's state and its Write methods. A float is the pattern of its bits.
pub mod Laws
use binary.Prelude.{ℕ, zero, suc, ◌-◌, ◌/◌, ◌%◌, ◌^◌, leb, ltb, length, take, if◌then◌else◌, Bool}
use binary.Prelude.{List, [], ◌∷◌, ◌++◌, Option, none, some, true, false}
use binary.Prelude.Int.{ℤ}
use binary.Base.{Error, short_write, nil_writer}
use binary.Varint.{uvarint_bytes, varint_bytes}

-- What the encoder writes to. `buffer` is a bytes.Buffer (a bufferWriter), which takes everything.
-- `pipe room` is any other io.Writer: it takes `room` more bytes and then reports an error.
-- `absent` is a nil interface or a nil pointer.
pub data Writer : Type 0 where
  buffer : List ℕ → Writer
  pipe : ℕ → List ℕ → Writer
  absent : Writer

-- `Write(p)` of the writer itself. On `absent` Go would panic: `reset` leaves the error set then, so
-- that the call is never made.
pub write_to : Writer → List ℕ → Option Error × Writer
write_to (buffer b) p = (none, buffer (b ++ p))
write_to (pipe room b) p =
    if leb (length p) room
    then (none, pipe (room - length p) (b ++ p))
    else (some short_write, pipe 0 (b ++ take room p))
write_to absent p = (none, absent)

pub record Encoder : Type 0 where
  pub out : Writer
  pub failure : Option Error

-- `Reset`, and `NewEncoder`, which calls it on a new encoder.
pub reset : Writer → Encoder → Encoder
reset absent e = record { out = absent; failure = some nil_writer }
reset (buffer b) e = record { out = buffer b; failure = none }
reset (pipe room b) e = record { out = pipe room b; failure = none }

unfoldable pub new_encoder : Writer → Encoder
unfolding reset
new_encoder w = reset w (record { out = absent; failure = none })

-- The bytes of a buffer that an encoder writes to.
unfoldable pub contents : Writer → List ℕ
contents (buffer b) = b
contents (pipe room b) = b
contents absent = []

after_write : Encoder → Option Error × Writer → Encoder
after_write e (err, w) = record e { out = w; failure = err }

-- `Write`: nothing more is written once a write has failed.
pub write : List ℕ → Encoder → Encoder
unfolding write_to after_write
write p e = elim e.failure [ none ↦ after_write e (write_to e.out p) | some x ↦ e ]

pub write_uvarint : ℕ → Encoder → Encoder
write_uvarint x = write (uvarint_bytes x)

pub write_varint : ℤ → Encoder → Encoder
write_varint v = write (varint_bytes v)

-- `LittleEndian.PutUint16`, `PutUint32` and `PutUint64`, for 2, 4 and 8 bytes.
unfoldable pub little_endian : ℕ → ℕ → List ℕ
little_endian zero x = []
little_endian (suc n) x = (x % 2 ^ 8) ∷ little_endian n (x / 2 ^ 8)

pub write_uint16 : ℕ → Encoder → Encoder
write_uint16 v = write (little_endian 2 v)

pub write_uint32 : ℕ → Encoder → Encoder
write_uint32 v = write (little_endian 4 v)

pub write_uint64 : ℕ → Encoder → Encoder
write_uint64 v = write (little_endian 8 v)

pub write_float32 : ℕ → Encoder → Encoder
write_float32 v = write_uint32 v

pub write_float64 : ℕ → Encoder → Encoder
write_float64 v = write_uint64 v

unfoldable pub bool_byte : Bool → List ℕ
bool_byte true = 1 ∷ []
bool_byte false = 0 ∷ []

pub write_bool : Bool → Encoder → Encoder
write_bool v = write (bool_byte v)

pub write_complex64 : ℕ → ℕ → Encoder → Encoder
write_complex64 re im = write (little_endian 4 re ++ little_endian 4 im)

pub write_complex128 : ℕ → ℕ → Encoder → Encoder
write_complex128 re im = write (little_endian 8 re ++ little_endian 8 im)

pub write_string : List ℕ → Encoder → Encoder
write_string v e = write v (write_uvarint (length v) e)

pub write_tagged : ℕ → List ℕ → Encoder → Encoder
write_tagged tag body e =
    let e' = write_uvarint (length body) (write_uvarint tag e) in
    if ltb 0 (length body) then write body e' else e'

-- `out, ok := e.out.(bufferWriter); ok && e.err == nil`, the condition of the bulk paths.
pub is_buffer : Writer → Bool
is_buffer (buffer b) = true
is_buffer (pipe room b) = false
is_buffer absent = false

unfoldable pub has_buffer : Encoder → Bool
unfolding is_buffer
has_buffer e = elim e.failure [ none ↦ is_buffer e.out | some x ↦ false ]
