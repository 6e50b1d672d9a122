-- ===== src/ControlStructures/Tests.antt =====
-- A header of a number, padding and a boolean.
use zamlet.Common.{
  AllBelow, ℕ, zero, suc, ◌≤◌, ◌<◌, ◌^◌, ◌≡◌, refl, arith, true, none, some, List, [], ◌∷◌, length,
  lookup, ok, err, value_error,
}
use zamlet.ControlStructures.{
  FieldValue, flag, number, FieldSpec, bits_from, pack_loop, pack_fields_to_bits, or_bits,
  pack_fields_to_int, calculate_total_width, unpack_int_to_fields, int_to_words,
}
use zamlet.ControlStructures.RoundTrip.{field_number, Named, unpack_int_to_fields-pack}
use zamlet.ControlStructures.IntWords.{words_number, word_count, int_to_words_lem}

abbrev header : ℕ → FieldValue
header zero = number 9
header (suc _) = flag true

abbrev specs : List FieldSpec
specs = (some 0, 4) ∷ (none, 2) ∷ (some 1, 1) ∷ []

-- The first field is the highest.
header_packed : pack_fields_to_int header specs ≡ ok 73
unfolding pack_fields_to_int pack_fields_to_bits pack_loop bits_from or_bits
header_packed = refl

unpack_int_to_fields-pack_example :
    (value : ℕ) × (pack_fields_to_int header specs ≡ ok value)
    × (value < 2 ^ calculate_total_width specs)
    × ((name : ℕ)
        → Named name specs
        → lookup name (unpack_int_to_fields value specs) ≡ some (field_number (header name)))
unpack_int_to_fields-pack_example = unpack_int_to_fields-pack header specs (omega arith, (refl, tt))

int_to_words_lem_example :
    (73 < 2 ^ 7
      → (words : List ℕ) × (int_to_words 73 7 3 ≡ ok words)
        × (length words ≡ word_count 7 3)
        × AllBelow (2 ^ 3) words
        × (words_number 3 words ≡ 73))
    × (2 ^ 9 ≤ 73 → int_to_words 73 7 3 ≡ err value_error)
int_to_words_lem_example = int_to_words_lem 73 7 3 (omega arith)
