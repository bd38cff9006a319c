-- ===== src/Examples/Offsets.antt =====
-- A struct at the offsets of its fields.
use binary.Prelude.{ℕ, ◌≡◌, arith, length, take, drop, List, [], ◌∷◌, ◌++◌}
use binary.Base.{ok, err, eof}
use binary.Varint.{uvarint_bytes}
use binary.Decoder.Laws.{in_memory, streaming, holding}
use binary.Codec.{
  Fields, Vals, primitive, byte_slice, varuint_slice, field, skipped, no_fields, string, w16,
}
use binary.Codec.Bytes.{decode_bytes}
use binary.Codec.Direct.{decode_direct}
use binary.Codec.Offsets.{read_bytes_over}
use binary.Codec.Direct.Laws.{decode_direct-Decodes}
use binary.Codec.Direct.Stale.{read_bytes_over-stale}
use binary.Codec.Tree.{wire_fields}
use binary.Codec.Tree.Fits.{FitsFields}

-- struct { Name string; hidden int; Body []byte; Ids []uint16 }
abbrev packet : Fields
packet = field (primitive string) (skipped (field byte_slice (field (varuint_slice w16) no_fields)))

abbrev hi : Vals packet
hi = (104 ∷ 105 ∷ [], (1 ∷ 2 ∷ 3 ∷ [], (500 ∷ [], tt)))

hi-Fits : FitsFields packet hi
hi-Fits = (omega arith, (omega arith, (((omega arith, tt), omega arith), tt)))

-- The target's fields hold four bytes each.
abbrev held : ℕ → List ℕ
held i = 104 ∷ 105 ∷ 9 ∷ 9 ∷ []

decode_direct-Decodes_example :
    decode_direct held packet (holding (streaming eof) [] (wire_fields packet hi ++ (7 ∷ [])))
    ≡ (ok hi, holding (streaming eof) ([] ++ wire_fields packet hi) (7 ∷ []))
decode_direct-Decodes_example =
    decode_direct-Decodes held packet hi (tt, (tt, (tt, tt))) hi-Fits (streaming eof) [] (7 ∷ [])

abbrev cut_off : List ℕ
cut_off = 1 ∷ []

abbrev kept_bytes : List ℕ
kept_bytes = 9 ∷ 9 ∷ 9 ∷ []

read_bytes_over-stale_example :
    ((read_bytes_over kept_bytes (holding in_memory [] (uvarint_bytes 3 ++ cut_off))).0
      ≡ ok (cut_off ++ drop (length cut_off) (take 3 kept_bytes)))
    × ((decode_bytes (holding in_memory [] (uvarint_bytes 3 ++ cut_off))).0 ≡ err eof)
read_bytes_over-stale_example =
    read_bytes_over-stale kept_bytes cut_off [] 3 (omega arith) (omega arith) (omega arith)
      (omega arith)
