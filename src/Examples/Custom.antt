-- ===== src/Examples/Custom.antt =====
-- A type with methods of its own, and slices written as memory.
use binary.Prelude.{ℕ, ◌≡◌, refl, arith, ◌^◌, List, [], ◌∷◌, ◌++◌, none, some, true, false}
use binary.Base.{Result, ok, err, panic, eof, own_error}
use binary.Encoder.{buffer, new_encoder, write, little_endian}
use binary.Decoder.Laws.{in_memory, streaming, holding}
use binary.Codec.Bytes.{wire_bytes}
use binary.Codec.Custom.{Methods, custom_method, unmarshal_into, encode_custom, decode_custom}
use binary.Codec.Custom.Laws.{Inverse, decode_custom-encode_custom}
use binary.Scanner.Methods.{Named, scan_binary_marshaler, scan_binary_marshaler-callable}
use binary.Memory.{Layout, little_layout}
use binary.Unsafe.{encode_elements, decode_elements}
use binary.Unsafe.Laws.{wire_elements, decode_elements-encode_elements, decode_elements-panics}

-- A number of one byte.
to_byte : ℕ → Result (List ℕ)
to_byte n = ok (n ∷ [])

of_byte : ℕ → List ℕ → Result ℕ
of_byte old [] = err own_error
of_byte old (b ∷ rest) = ok b

abbrev on_type : Named (ℕ → Result (List ℕ))
on_type = record { on_value = some (true, to_byte); on_pointer = some (true, to_byte) }

abbrev on_pointer_only : Named (ℕ → List ℕ → Result ℕ)
on_pointer_only = record { on_value = none; on_pointer = some (true, of_byte) }

abbrev methods : Methods ℕ
methods = record {
  marshaler = some to_byte;
  ptr_marshaler = none;
  unmarshaler = none;
  ptr_unmarshaler = some of_byte;
}

methods-Inverse : Inverse methods false 65 (65 ∷ [])
unfolding custom_method to_byte of_byte
methods-Inverse = record {
  marshal = to_byte;
  unmarshal = of_byte;
  marshals = refl;
  unmarshals = refl;
  returns = refl;
  back = λ old. refl;
  small = omega arith;
}

decode_custom-encode_custom_example :
    (encode_custom methods false 65 (new_encoder (buffer []))
      ≡ (ok tt, write (wire_bytes (65 ∷ [])) (new_encoder (buffer []))))
    × (decode_custom methods 3 (holding in_memory [] (wire_bytes (65 ∷ []) ++ (7 ∷ [])))
        ≡ (ok 65, holding in_memory ([] ++ wire_bytes (65 ∷ [])) (7 ∷ [])))
decode_custom-encode_custom_example =
    decode_custom-encode_custom methods false 65 (65 ∷ []) methods-Inverse 3
      (new_encoder (buffer [])) in_memory [] (7 ∷ [])

methods_found : scan_binary_marshaler on_type on_pointer_only ≡ some methods
unfolding scan_binary_marshaler
methods_found = refl

scan_binary_marshaler-callable_example :
    (f : ℕ → List ℕ → Result ℕ) × (custom_method true methods.unmarshaler methods.ptr_unmarshaler
      ≡ some f)
    × (unmarshal_into methods 3 (8 ∷ []) ≡ f 3 (8 ∷ []))
scan_binary_marshaler-callable_example =
    scan_binary_marshaler-callable on_type on_pointer_only methods 3 (8 ∷ []) methods_found

abbrev words : Layout
words = little_layout 8 (omega arith)

decode_elements-encode_elements_example :
    (encode_elements words (3 ∷ 258 ∷ []) (new_encoder (buffer []))
      ≡ (ok tt, write (wire_elements words (3 ∷ 258 ∷ [])) (new_encoder (buffer []))))
    × (decode_elements words
          (holding (streaming eof) [] (wire_elements words (3 ∷ 258 ∷ []) ++ (7 ∷ [])))
        ≡ (
          ok (3 ∷ 258 ∷ []),
          holding (streaming eof) ([] ++ wire_elements words (3 ∷ 258 ∷ [])) (7 ∷ []),
        ))
decode_elements-encode_elements_example =
    decode_elements-encode_elements words (3 ∷ 258 ∷ []) (new_encoder (buffer [])) (streaming eof)
      [] (7 ∷ []) (omega arith, (omega arith, tt)) (omega arith)

decode_elements-panics_example :
    (decode_elements words (holding in_memory [] (little_endian 8 (2 ^ 50) ++ []))).0 ≡ panic
decode_elements-panics_example =
    decode_elements-panics words (2 ^ 50) in_memory [] [] (omega arith) (omega arith)
