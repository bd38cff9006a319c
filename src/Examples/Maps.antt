-- ===== src/Examples/Maps.antt =====
-- Maps and unions at work on small values.
use binary.Prelude.{◌<◌, length-replicate, Bool}
use binary.Prelude.Int.{pos}
use binary.Codec.Key.{max_map_key_length}
use binary.Codec.Union.Laws.{IsTags}
use binary.Prelude.{
  ℕ, ◌≡◌, arith, inl, inr, List, [], ◌∷◌, ◌++◌, some, length, replicate, true, false,
}
use binary.Base.{ok, err, eof, map_key_too_long, multiple_arms}
use binary.Encoder.{buffer, pipe, new_encoder}
use binary.Decoder.Laws.{streaming, holding}
use binary.Codec.{
  Arms, Opts, arm, no_arms, union, primitive, string, int, w64, bool_key, string_key, plain_uint64,
  string_map, map_of,
}
use binary.Codec.Primitive.{decode_primitive, wire_kind, decode_primitive-Decodes, length-wire_kind}
use binary.Codec.Key.{same_key}
use binary.Codec.Map.{get, decode_map}
use binary.Codec.Map.Laws.{wire_map}
use binary.Codec.Map.Lookup.{last_value, decode_map-get}
use binary.Codec.Map.Fast.{encode_string_map}
use binary.Codec.Map.Fast.Errors.{encode_string_map-long}
use binary.Codec.Union.{lookup}
use binary.Codec.Union.Table.{place, lookup-place}
use binary.Codec.Selection.{encode-several}
use binary.Codec.FastMaps.{general, entries, encode_string_map-general}
use binary.Codec.Delivery.{finish}
use binary.Codec.Tree.{encode}

-- The bytes of an entry twice: the second one stands.
abbrev answers : List (Bool × List ℕ)
answers = (true, 97 ∷ []) ∷ (false, []) ∷ (true, 98 ∷ 99 ∷ []) ∷ []

decode_map-get_example :
    (m : List (Bool × List ℕ)) × (decode_map bool_key 1
        (decode_primitive string)
        (holding (streaming eof) [] (wire_map bool_key (wire_kind string) answers ++ (7 ∷ [])))
      ≡ (
        ok m,
        holding (streaming eof) ([] ++ wire_map bool_key (wire_kind string) answers) (7 ∷ []),
      ))
    × ((q : Bool) → get (same_key bool_key) m q ≡ last_value bool_key answers q)
decode_map-get_example =
    decode_map-get bool_key (decode_primitive string) (wire_kind string) 1 answers
      (tt, (tt, (tt, tt)))
      (
        (decode_primitive-Decodes string _ (omega arith), length-wire_kind string _),
        (
          (decode_primitive-Decodes string _ (omega arith), length-wire_kind string _),
          ((decode_primitive-Decodes string _ (omega arith), length-wire_kind string _), tt),
        ),
      )
      (omega arith) (streaming eof) [] (7 ∷ [])

abbrev long_key : List ℕ
long_key = replicate 65536 107

abbrev one_long : List (List ℕ × ℕ)
one_long = (97 ∷ [], 1) ∷ (long_key, 2) ∷ []

long_key-LongKey : max_map_key_length < length long_key
long_key-LongKey = rw (length-replicate {A = ℕ} 65536 107) (omega arith)

encode_string_map-long_example :
    (encode_string_map plain_uint64 one_long (new_encoder (pipe 3 []))).0 ≡ err map_key_too_long
encode_string_map-long_example =
    encode_string_map-long plain_uint64 one_long (new_encoder (pipe 3 []))
      (inr (inl long_key-LongKey))

abbrev nine : List (List ℕ × ℕ)
nine = (long_key, 2) ∷ replicate 8 (97 ∷ [], 1)

abbrev tags : List ℕ
tags = 3 ∷ 1 ∷ 255 ∷ []

tags-IsTags : IsTags tags
tags-IsTags = (
  omega arith,
  omega arith,
  ((λ e. absurd (omega arith)), ((λ e. absurd (omega arith)), tt)),
  (omega arith, omega arith, ((λ e. absurd (omega arith)), tt), (omega arith, omega arith, tt, tt)),
)

lookup-place_example : lookup tags 255 ≡ place tags 255
lookup-place_example = lookup-place tags 255 tags-IsTags

abbrev nines : List ℕ
nines = 9 ∷ 9 ∷ []

abbrev two_arms : Arms
two_arms = arm 1 (primitive string) (arm 2 (primitive (int w64)) no_arms)

abbrev both : Opts two_arms
both = (some [], (some (pos 4), tt))

encode-several_example :
    encode (union two_arms) both (new_encoder (buffer []))
    ≡ (err multiple_arms, new_encoder (buffer []))
encode-several_example = encode-several two_arms both (new_encoder (buffer [])) (omega arith)

abbrev ages : List (List ℕ × ℕ)
ages = (97 ∷ [], 30) ∷ (98 ∷ [], 300) ∷ []

encode_string_map-general_example :
    finish (encode (string_map plain_uint64) ages) (new_encoder (pipe 5 []))
    ≡ finish
        (encode (map_of string_key (general plain_uint64)) (entries plain_uint64 ages))
        (new_encoder (pipe 5 []))
encode_string_map-general_example =
    encode_string_map-general plain_uint64 ages (new_encoder (pipe 5 []))
      (omega arith, (omega arith, tt))
