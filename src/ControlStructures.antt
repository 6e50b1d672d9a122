-- ===== src/ControlStructures.antt =====
-- Bit fields of message headers and kamlet instructions: python/zamlet/control_structures.py.
pub mod RoundTrip
pub mod IntWords
mod Tests
use zamlet.Common.{
  ℕ, zero, suc, ◌+◌, ◌-◌, ◌*◌, ◌/◌, ◌%◌, ◌^◌, bit_and, bit_or, ◌==◌, ltb, if◌then◌else◌, Bool, true,
  false, Option, none, some, List, [], ◌∷◌, ◌++◌, length, replicate, insert, Result, ok, err,
  index_error, value_error, zero_division, guard, ◌>>=◌, ◌>>◌,
}
use mathlib.Core.List.{reverse}

-- What an attribute can be: a boolean, a number that is not negative, or a list of either.
pub data FieldValue : Type 0 where
  flag : Bool → FieldValue
  number : ℕ → FieldValue
  flags : List Bool → FieldValue
  numbers : List ℕ → FieldValue

-- A field's name, with `none` for `_padding`, and its width in bits. Names are numbers here.
abbrev pub FieldSpec : Type 0
FieldSpec = Option ℕ × ℕ

-- Bits `i`, `i + 1`, …, `n` of them.
unfoldable pub bits_from : ℕ → ℕ → ℕ → List Bool
bits_from value i zero = []
bits_from value i (suc n) = (value / 2 ^ i % 2 == 1) ∷ bits_from value (suc i) n

abbrev pub pack_value_to_bits : ℕ → ℕ → List Bool
pack_value_to_bits value width = bits_from value 0 width

abbrev pub pack_items : List ℕ → ℕ → List Bool
pack_items [] width = []
pack_items (item ∷ items) width = pack_value_to_bits item width ++ pack_items items width

-- The bits of one attribute; an empty list has no first element to look at.
abbrev pub field_bits : FieldValue → ℕ → Result (List Bool)
field_bits (flag b) width = ok (b ∷ [])
field_bits (number v) width = ok (pack_value_to_bits v width)
field_bits (flags []) width = err index_error
field_bits (flags (b ∷ bs)) width = ok (b ∷ bs)
field_bits (numbers []) width = err index_error
field_bits (numbers (v ∷ vs)) width = ok (pack_items (v ∷ vs) (width / length (v ∷ vs)))

abbrev pub spec_bits : (ℕ → FieldValue) → Option ℕ → ℕ → Result (List Bool)
spec_bits obj none width = ok (replicate width false)
spec_bits obj (some name) width = field_bits (obj name) width

unfoldable pub pack_loop : (ℕ → FieldValue) → List FieldSpec → Result (List Bool)
pack_loop obj [] = ok []
pack_loop obj ((name, width) ∷ specs) = do
  bits ← spec_bits obj name width
  rest ← pack_loop obj specs
  ok (bits ++ rest)

unfoldable pub pack_fields_to_bits : (ℕ → FieldValue) → List FieldSpec → Result (List Bool)
pack_fields_to_bits obj specs = pack_loop obj (reverse specs)

-- `result |= 1 << i` for the bits that are set, from `i`.
unfoldable pub or_bits : ℕ → ℕ → List Bool → ℕ
or_bits result i [] = result
or_bits result i (b ∷ bits) = or_bits (if b then bit_or result (1 * 2 ^ i) else result) (suc i) bits

unfoldable pub pack_fields_to_int : (ℕ → FieldValue) → List FieldSpec → Result ℕ
pack_fields_to_int obj specs = do bits ← pack_fields_to_bits obj specs; ok (or_bits 0 0 bits)

abbrev pub calculate_total_width : List FieldSpec → ℕ
calculate_total_width [] = 0
calculate_total_width ((_, width) ∷ specs) = width + calculate_total_width specs

abbrev pub put_field : Option ℕ → ℕ → List (ℕ × ℕ) → List (ℕ × ℕ)
put_field none value fields = fields
put_field (some name) value fields = insert name value fields

unfoldable pub unpack_loop : ℕ → ℕ → List FieldSpec → List (ℕ × ℕ) → List (ℕ × ℕ)
unpack_loop value offset [] fields = fields
unpack_loop value offset ((name, width) ∷ specs) fields =
    unpack_loop value (offset + width) specs
      (put_field name (bit_and (value / 2 ^ offset) (2 ^ width - 1)) fields)

unfoldable pub unpack_int_to_fields : ℕ → List FieldSpec → List (ℕ × ℕ)
unpack_int_to_fields value specs = unpack_loop value 0 (reverse specs) []

-- The words of `int_to_words`, and what is left of the value.
unfoldable pub word_loop : ℕ → ℕ → ℕ → List ℕ × ℕ
word_loop word_width zero value = ([], value)
word_loop word_width (suc n) value =
    let rest = word_loop word_width n (value / 2 ^ word_width) in
    (bit_and value (2 ^ word_width - 1) ∷ rest.0, rest.1)

unfoldable pub int_to_words : ℕ → ℕ → ℕ → Result (List ℕ)
int_to_words value original_width word_width =
    let split = word_loop word_width ((original_width + word_width - 1) / word_width) value in
    guard (ltb 0 word_width) zero_division >> (guard (split.1 == 0) value_error >> ok split.0)
