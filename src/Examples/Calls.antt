-- ===== src/Examples/Calls.antt =====
-- Calls in sequence and at once, over two types.
use binary.Prelude.{
  ℕ, zero, suc, ◌≡◌, refl, arith, ◌==◌, All, length, ◌≤◌, List, [], ◌∷◌, ◌++◌, none, some, true,
  false,
}
use binary.Base.{ok, eof}
use binary.Encoder.{buffer, new_encoder, write}
use binary.Decoder.Laws.{streaming, holding}
use binary.Codec.{Codec, Val, primitive, string, byte_slice, zero_value, i8}
use binary.Codec.Delivery.{kept}
use binary.Codec.Tree.Fits.{Fits}
use binary.Scanner.{GoType, basic, slice_type, go_string, go_uint, scan_type}
use binary.Scanner.Cache.{GoTypes, scan_anew, IsTable}
use binary.Scanner.Cache.Threads.{Thread, starting, run, IsThread, run-IsThread}
use binary.Scanner.Cache.Threads.Returns.{returned, run-returns}
use binary.Prelude.{map, ◌++◌, length, ◌≤◌}
use binary.Calls.{Choices, encode_any, decode_any}
use binary.Calls.Laws.{IsChoices, encode_anew, encode_any-anew}
use binary.Calls.RoundTrip.{decode_any-encode_any}

-- Type 0 is `string`, and every other number a type `[]byte`.
type_of : ℕ → GoType
type_of zero = basic false go_string
type_of (suc n) = slice_type false (basic false (go_uint i8))

same_number : (t u : ℕ) → (t == u) ≡ true → t ≡ u
same_number t u h = ground arith

abbrev types : GoTypes ℕ
types = record { same = ◌==◌; same-eq = same_number; describe = type_of; size_of = λ t. 1 }

abbrev Value : ℕ → Type 0
Value t = List ℕ

-- A string is seen as one.
seen : (t : ℕ) → Value t → (c : Codec) → Val c
seen t v (primitive string) = v
seen t v c = zero_value c

string_known : scan_anew types 0 ≡ ok (primitive string)
unfolding scan_anew scan_type type_of
string_known = refl

bytes_known : scan_anew types 1 ≡ ok byte_slice
unfolding scan_anew scan_type type_of
bytes_known = refl

-- The call before was for a byte slice, and both types have been looked up.
abbrev before : Choices ℕ
before = record {
  last = some (1, byte_slice);
  schemas = (0, primitive string) ∷ (1, byte_slice) ∷ [];
}

abbrev at_first : Choices ℕ
at_first = record { last = none; schemas = [] }

before-IsChoices : IsChoices types before
before-IsChoices = (bytes_known, (string_known, (bytes_known, tt)))

encode_any-anew_example :
    (s' : Choices ℕ) × (encode_any types Value seen
        (some (0, 104 ∷ []))
        (new_encoder (buffer []), before)
      ≡ (
        (encode_anew types Value seen 0 (104 ∷ []) (new_encoder (buffer []))).0,
        ((encode_anew types Value seen 0 (104 ∷ []) (new_encoder (buffer []))).1, s'),
      ))
    × IsChoices types s'
encode_any-anew_example =
    encode_any-anew types Value seen 0 (104 ∷ []) (new_encoder (buffer [])) before before-IsChoices

hello-Fits : Fits (primitive string) (seen 0 (104 ∷ []) (primitive string))
unfolding seen
hello-Fits = omega arith

decode_any-encode_any_example :
    (s1 : Choices ℕ) × (s2 : Choices ℕ) × (b : List ℕ) × (encode_any types Value seen
        (some (0, 104 ∷ []))
        (new_encoder (buffer []), before)
      ≡ (
        (kept (write b (new_encoder (buffer [])))).0,
        ((kept (write b (new_encoder (buffer [])))).1, s1),
      ))
    × (decode_any types (some 0) (holding (streaming eof) [] (b ++ (7 ∷ [])), at_first) ≡ (
      ok (primitive string, seen 0 (104 ∷ []) (primitive string)),
      (holding (streaming eof) ([] ++ b) (7 ∷ []), s2),
    ))
    × IsChoices types s1
    × IsChoices types s2
decode_any-encode_any_example =
    decode_any-encode_any types Value seen 0 (104 ∷ []) (primitive string) string_known hello-Fits
      (new_encoder (buffer [])) before at_first (streaming eof) [] (7 ∷ []) before-IsChoices
      (tt, tt)

-- Two calls for one type and one for another, of which the first two are between their steps at once.
abbrev three : List (Thread ℕ)
three = starting 0 ∷ starting 0 ∷ starting 1 ∷ []

abbrev turns : List ℕ
turns = 0 ∷ 1 ∷ 1 ∷ 0 ∷ 2 ∷ 2 ∷ []

run-IsThread_example :
    All (IsThread types) (run types turns three []).0 × IsTable types (run types turns three []).1
run-IsThread_example = run-IsThread types turns three [] (tt, (tt, (tt, tt))) tt

run-returns_example :
    (more : List ℕ) × (length more ≤ 6)
    × ((run types (turns ++ more) (map (λ t. starting t) (0 ∷ 0 ∷ 1 ∷ [])) []).0
        ≡ map (returned types) (0 ∷ 0 ∷ 1 ∷ []))
run-returns_example = run-returns types turns (0 ∷ 0 ∷ 1 ∷ []) [] tt
