-- ===== src/Nocopy/Maps/Entries.antt =====
-- nocopy/types.go: the loop over the entries of a map, for any codec of its keys and values.
use binary.Prelude.{
  ℕ, ◌*◌, ◌/◌, ◌≤◌, ◌<◌, ◌≡◌, arith, length, All, List, [], ◌∷◌, ◌++◌, append_assoc, append-nil,
  length-append, le→ltb_false,
}
use native.Mathlib.Nat.{le-div_iff_mul-le}
use binary.Base.{ok, eof, M, next, wire_each}
use binary.Decoder.{Decoder}
use binary.Decoder.Laws.{Origin, in_memory, streaming, holding}
use binary.Decoder.Checks.{available-holding}
use binary.Codec.{KeyKind, KeyVal}
use binary.Codec.Key.{same_key}
use binary.Codec.Loops.{Decodes, All-of}
use binary.Codec.Map.{decode_entries, put}
use binary.Codec.Map.Laws.{put_all, put_all-IsMap, IsMap}
use binary.Codec.Varints.Laws.{length-wire_each}
use binary.Nocopy.Maps.{map_capacity, too_few}

pub map_capacity-holding :
    (o : Origin) (n min : ℕ) (front rest : List ℕ)
    → 0 < min
    → n * min ≤ length rest
    → map_capacity n min (holding o front rest) ≡ (ok tt, holding o front rest)
unfolding map_capacity too_few
map_capacity-holding in_memory n min front rest h g = rw (
  (available-holding eof front rest).0,
  le→ltb_false (length rest / min) n ((le-div_iff_mul-le h).1 g),
)
map_capacity-holding (streaming x) n min front rest h g = rw (available-holding x front rest).1

module _ {V : Type 0} (k : KeyKind) (key : M Decoder (KeyVal k)) (key_bytes : KeyVal k → List ℕ)
    (value : M Decoder V) (value_bytes : V → List ℕ) (entry : KeyVal k × V → List ℕ)
    (made : (q : KeyVal k) (v : V) → entry (q, v) ≡ key_bytes q ++ value_bytes v) where
  -- The key and the value of an entry are read back.
  abbrev pub IsEntry : KeyVal k × V → Type 0
  IsEntry e = Decodes key key_bytes e.0 × Decodes value value_bytes e.1

  entries-holding :
      (m es : List (KeyVal k × V))
      → All IsEntry es
      → (o : Origin) (front rest : List ℕ)
      → decode_entries
          (same_key k)
          key
          value
          (length es)
          m
          (holding o front (wire_each entry es ++ rest))
        ≡ (ok (put_all k es m), holding o (front ++ wire_each entry es) rest)
  unfolding decode_entries wire_each put_all
  entries-holding m [] h o front rest = rw append-nil
  entries-holding m ((q, v) ∷ es) h o front rest =
      let more = wire_each entry es in
      rw (
        made q v,
        append_assoc,
        append_assoc,
        h.0.0 o front (value_bytes v ++ (more ++ rest)),
        h.0.1 o (front ++ key_bytes q) (more ++ rest),
        entries-holding (put (same_key k) q v m) es h.1 o ((front ++ key_bytes q) ++ value_bytes v)
            rest,
        append_assoc front (key_bytes q) (value_bytes v),
        append_assoc front (key_bytes q ++ value_bytes v) more,
      )

  -- The entries behind their number, once that is found to be one that the bytes have room for.
  pub map_body-holding :
      (min : ℕ) (m : List (KeyVal k × V))
      → 0 < min
      → All IsEntry m
      → IsMap k m
      → ((e : KeyVal k × V) → min ≤ length (entry e))
      → (o : Origin) (front rest : List ℕ)
      → next
          (map_capacity (length m) min (holding o front (wire_each entry m ++ rest)))
          (λ u. decode_entries (same_key k) key value (length m) [])
        ≡ (ok m, holding o (front ++ wire_each entry m) rest)
  map_body-holding min m positive h once least o front rest =
      let room : length m * min ≤ length (wire_each entry m ++ rest) =
        rw (length-append (wire_each entry m) rest)
          (omega (arith, length-wire_each entry min m (All-of _ m least))) in
      rw (
        map_capacity-holding o (length m) min front (wire_each entry m ++ rest) positive room,
        entries-holding [] m h o front rest,
        put_all-IsMap k m once,
      )
