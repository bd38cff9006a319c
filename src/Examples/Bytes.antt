-- ===== src/Examples/Bytes.antt =====
-- Varints, readers, encoders and decoders at work on small inputs.

use binary.Prelude.{◌<◌, ◌≡◌, arith, All, replicate}
use binary.Reader.{SliceReader}
use binary.Reader.Bulk.{read_varints, read_each, varint_value}
use binary.Reader.Bulk.Laws.{read_varints-eq-read_each}

-- A number that does not end: eleven bytes with their top bit set.
abbrev endless : SliceReader
endless = record { buffer = replicate 11 255; offset = 0 }

endless_bytes : All (λ b. b < 256) (replicate 11 255)
endless_bytes = ground arith

read_varints-eq-read_each_example :
    read_varints (varint_value 64) 2 endless ≡ read_each (varint_value 64) 2 endless
read_varints-eq-read_each_example =
    read_varints-eq-read_each (varint_value 64) 2 endless endless_bytes (omega arith)
