-- ===== src/ControlStructures/RoundTrip.antt =====
-- Packed fields are read back.
use zamlet.Common.{
  ℕ, zero, suc, ◌+◌, ◌-◌, ◌*◌, ◌/◌, ◌%◌, ◌^◌, ◌<◌, ◌≡◌, ◌⊎◌, inl, inr, refl, sym, subst, ap, ap₂,
  ◌∙◌, arith, bit_and, ◌==◌, ==→eq, ==_refl, Bool-cases, Bool, true, false, Option, none, some,
  List, [], ◌∷◌, ◌++◌, length, length-replicate, replicate, lookup, lookup-insert, ok,
}
use native.Mathlib.Nat.{mod-eq_of_lt, pow-succ', one-le-pow, div-div-eq-div-mul}
use mathlib.Core.List.{reverse, reverse_aux}
use zamlet.Bits.{bit_or-shift, bit_and-mask}
use zamlet.Digits.{row_digits, join-mod, join-div, join_lt}
use zamlet.ControlStructures.{
  FieldValue, flag, number, flags, numbers, FieldSpec, bits_from, field_bits, spec_bits, pack_loop,
  pack_fields_to_bits, or_bits, pack_fields_to_int, calculate_total_width, put_field, unpack_loop,
  unpack_int_to_fields,
}

abbrev bit_number : Bool → ℕ
bit_number true = 1
bit_number false = 0

-- The number of a list of bits, the lowest first.
abbrev bits_number : List Bool → ℕ
bits_number [] = 0
bits_number (b ∷ bits) = bit_number b + 2 * bits_number bits

or_bits_lem :
    (bits : List Bool) (r i : ℕ) → r < 2 ^ i → or_bits r i bits ≡ r + 2 ^ i * bits_number bits
unfolding or_bits
or_bits_lem [] r i small = omega arith
or_bits_lem (true ∷ bits) r i small = rw (bit_or-shift i r 1 small) (
    or_bits_lem bits (r + 1 * 2 ^ i) (suc i) (omega (arith, pow-succ' 2 i, small))
    ∙ omega (arith, pow-succ' 2 i, ap (λ t. t * bits_number bits) (pow-succ' 2 i)))
or_bits_lem (false ∷ bits) r i small =
    or_bits_lem bits r (suc i) (omega (arith, pow-succ' 2 i, small))
    ∙ omega (arith, ap (λ t. t * bits_number bits) (pow-succ' 2 i))

low_bit : (u : ℕ) → bit_number (u % 2 == 1) ≡ u % 2
low_bit u = ground arith

bits_from_lem : (v i n : ℕ) → bits_number (bits_from v i n) ≡ v / 2 ^ i % 2 ^ n
unfolding bits_from
bits_from_lem v i zero = omega arith
bits_from_lem v i (suc n) =
    let u = v / 2 ^ i in
    let half : v / 2 ^ suc i ≡ u / 2 =
      ap (λ t. v / t) (omega (arith, pow-succ' 2 i)) ∙ sym (div-div-eq-div-mul v (2 ^ i) 2) in
    let split = (row_digits u (2 ^ n) 2 (one-le-pow n 2 (omega arith)) (omega arith)).0 in
    let double : 2 ^ suc n ≡ 2 ^ n * 2 = omega (arith, pow-succ' 2 n) in
    ap₂ (λ a b. a + 2 * b) (low_bit u) (bits_from_lem v (suc i) n ∙ ap (λ t. t % 2 ^ n) half)
    ∙ omega arith
    ∙ sym split
    ∙ ap (λ t. u % t) (sym double)

bits_number-append :
    (xs ys : List Bool) → bits_number (xs ++ ys) ≡ bits_number xs + 2 ^ length xs * bits_number ys
bits_number-append [] ys = omega arith
bits_number-append (x ∷ xs) ys =
    omega (arith, bits_number-append xs ys, ap (λ t. t * bits_number ys) (pow-succ' 2 (length xs)))

bits_number-replicate : (n : ℕ) → bits_number (replicate n false) ≡ 0
bits_number-replicate zero = refl
bits_number-replicate (suc n) = omega (arith, bits_number-replicate n)

length-bits_from : (v i n : ℕ) → length (bits_from v i n) ≡ n
unfolding bits_from
length-bits_from v i zero = refl
length-bits_from v i (suc n) = ap suc (length-bits_from v (suc i) n)

pub pow_sum : (a b : ℕ) → 2 ^ (a + b) ≡ 2 ^ a * 2 ^ b
pow_sum zero b = let e : zero + b ≡ b = omega arith in ap (λ (t : ℕ). 2 ^ t) e ∙ omega arith
pow_sum (suc a) b =
    let e : suc a + b ≡ suc (a + b) = omega arith in
    ap (λ (t : ℕ). 2 ^ t) e
    ∙ pow-succ' 2 (a + b)
    ∙ omega (arith, ap (λ (t : ℕ). 2 * t) (pow_sum a b), ap (λ (t : ℕ). t * 2 ^ b) (pow-succ' 2 a))

-- The number in a field that holds one.
abbrev pub field_number : FieldValue → ℕ
field_number (flag b) = bit_number b
field_number (number v) = v
field_number (flags bs) = 0
field_number (numbers vs) = 0

-- A number below `2 ^ width`, or a boolean in one bit.
abbrev pub Fits : FieldValue → ℕ → Type 0
Fits (flag b) width = width ≡ 1
Fits (number v) width = v < 2 ^ width
Fits (flags bs) width = ⊥
Fits (numbers vs) width = ⊥

abbrev pub AllFit : (ℕ → FieldValue) → List FieldSpec → Type 0
AllFit obj [] = Unit {0}
AllFit obj ((none, width) ∷ specs) = AllFit obj specs
AllFit obj ((some name, width) ∷ specs) = Fits (obj name) width × AllFit obj specs

abbrev spec_number : (ℕ → FieldValue) → Option ℕ → ℕ
spec_number obj none = 0
spec_number obj (some name) = field_number (obj name)

-- The packed number, the first field lowest.
abbrev packed : (ℕ → FieldValue) → List FieldSpec → ℕ
packed obj [] = 0
packed obj ((name, width) ∷ specs) = spec_number obj name + 2 ^ width * packed obj specs

field_bits_lem :
    (v : FieldValue) (width : ℕ)
    → Fits v width
    → (bits : List Bool) × (field_bits v width ≡ ok bits)
      × (length bits ≡ width)
      × (bits_number bits ≡ field_number v)
      × (field_number v < 2 ^ width)
unfolding bits_from
field_bits_lem (flag true) width e = (true ∷ [], refl, sym e, refl, rw e (omega arith))
field_bits_lem (flag false) width e = (false ∷ [], refl, sym e, refl, rw e (omega arith))
field_bits_lem (number v) width small = (
  bits_from v 0 width,
  refl,
  length-bits_from v 0 width,
  bits_from_lem v 0 width ∙ ap (λ t. t % 2 ^ width) (omega arith) ∙ mod-eq_of_lt small,
  small,
)
field_bits_lem (flags bs) width e = elim e [ ]
field_bits_lem (numbers vs) width e = elim e [ ]

spec_bits_lem :
    (obj : ℕ → FieldValue) (name : Option ℕ) (width : ℕ) (specs : List FieldSpec)
    → AllFit obj ((name, width) ∷ specs)
    → (bits : List Bool) × (spec_bits obj name width ≡ ok bits)
      × (length bits ≡ width)
      × (bits_number bits ≡ spec_number obj name)
      × (spec_number obj name < 2 ^ width)
      × AllFit obj specs
spec_bits_lem obj none width specs fits = (
  replicate width false,
  refl,
  length-replicate width false,
  bits_number-replicate width,
  one-le-pow width 2 (omega arith),
  fits,
)
spec_bits_lem obj (some name) width specs (fit, fits) =
    let (bits, e, l, n, small) = field_bits_lem (obj name) width fit in (bits, e, l, n, small, fits)

pack_loop_lem :
    (obj : ℕ → FieldValue) (specs : List FieldSpec)
    → AllFit obj specs
    → (bits : List Bool) × (pack_loop obj specs ≡ ok bits) × (bits_number bits ≡ packed obj specs)
unfolding pack_loop
pack_loop_lem obj [] fits = ([], refl, refl)
pack_loop_lem obj ((name, width) ∷ specs) fits =
    let (bits, e, l, n, _, fits') = spec_bits_lem obj name width specs fits in
    let (rest, e', n') = pack_loop_lem obj specs fits' in
    (bits ++ rest, rw (e, e') refl, bits_number-append bits rest ∙ rw (l, n, n') refl)

abbrev pub Named : ℕ → List FieldSpec → Type 0
Named name [] = ⊥
Named name ((n, width) ∷ specs) = (n ≡ some name) ⊎ Named name specs

-- Reading one more field keeps what was found, and finds the field.
put_field_lem :
    (obj : ℕ → FieldValue) (n : Option ℕ) (specs : List FieldSpec) (width : ℕ)
    (fields : List (ℕ × ℕ)) (name : ℕ)
    → (lookup name fields ≡ some (field_number (obj name))) ⊎ Named name ((n, width) ∷ specs)
    → (lookup name (put_field n (spec_number obj n) fields) ≡ some (field_number (obj name)))
      ⊎ Named name specs
put_field_lem obj none specs width fields name (inl found) = inl found
put_field_lem obj none specs width fields name (inr (inl named)) = cc
put_field_lem obj none specs width fields name (inr (inr later)) = inr later
put_field_lem obj (some m) specs width fields name (inr (inr later)) = inr later
put_field_lem obj (some m) specs width fields name (inr (inl named)) =
    let e : m ≡ name = cc in
    inl (lookup-insert name m (field_number (obj m)) fields ∙ rw (e, ==_refl name) refl)
put_field_lem obj (some m) specs width fields name (inl found) =
    inl (elim (Bool-cases (name == m)) [
      | inl same ↦
          lookup-insert name m (field_number (obj m)) fields
          ∙ rw same (ap (λ t. some (field_number (obj t))) (sym (==→eq name m same)))
      | inr other ↦ lookup-insert name m (field_number (obj m)) fields ∙ rw other found
    ])

-- A field's number is found after the fields from `specs` are read.
unpack_loop_lem :
    (obj : ℕ → FieldValue) (value offset : ℕ) (specs : List FieldSpec) (fields : List (ℕ × ℕ))
    (name : ℕ)
    → AllFit obj specs
    → value / 2 ^ offset ≡ packed obj specs
    → (lookup name fields ≡ some (field_number (obj name))) ⊎ Named name specs
    → lookup name (unpack_loop value offset specs fields) ≡ some (field_number (obj name))
unfolding unpack_loop
unpack_loop_lem obj value offset [] fields name fits e (inl found) = found
unpack_loop_lem obj value offset [] fields name fits e (inr named) = elim named [ ]
unpack_loop_lem obj value offset ((n, width) ∷ specs) fields name fits e where_found =
    let (_, _, _, _, small, fits') = spec_bits_lem obj n width specs fits in
    let x = spec_number obj n in
    let rest = packed obj specs in
    let parts : value / 2 ^ offset ≡ rest * 2 ^ width + x = e ∙ omega arith in
    let read : bit_and (value / 2 ^ offset) (2 ^ width - 1) ≡ x =
      bit_and-mask width (value / 2 ^ offset)
      ∙ ap (λ (t : ℕ). t % 2 ^ width) parts
      ∙ join-mod x rest (2 ^ width) small in
    let next : value / 2 ^ (offset + width) ≡ rest =
      ap (λ (t : ℕ). value / t) (pow_sum offset width)
      ∙ sym (div-div-eq-div-mul value (2 ^ offset) (2 ^ width))
      ∙ ap (λ (t : ℕ). t / 2 ^ width) parts
      ∙ join-div x rest (2 ^ width) small in
    ap (λ (t : ℕ). lookup name (unpack_loop value (offset + width) specs (put_field n t fields)))
      read
    ∙ unpack_loop_lem obj value (offset + width) specs (put_field n x fields) name fits' next
        (put_field_lem obj n specs width fields name where_found)

packed_small :
    (obj : ℕ → FieldValue) (specs : List FieldSpec)
    → AllFit obj specs
    → packed obj specs < 2 ^ calculate_total_width specs
packed_small obj [] fits = omega arith
packed_small obj ((n, width) ∷ specs) fits =
    let (_, _, _, _, small, fits') = spec_bits_lem obj n width specs fits in
    let bound =
      join_lt (spec_number obj n) (packed obj specs) (2 ^ width) (2 ^ calculate_total_width specs)
        small (packed_small obj specs fits') in
    omega (arith, bound, pow_sum width (calculate_total_width specs))

-- The order of the fields does not matter to what is said of each.
AllFit-reverse_aux :
    (obj : ℕ → FieldValue) (xs ys : List FieldSpec)
    → AllFit obj xs
    → AllFit obj ys
    → AllFit obj (reverse_aux xs ys)
AllFit-reverse_aux obj [] ys fits fits' = fits'
AllFit-reverse_aux obj ((none, width) ∷ xs) ys fits fits' =
    AllFit-reverse_aux obj xs ((none, width) ∷ ys) fits fits'
AllFit-reverse_aux obj ((some name, width) ∷ xs) ys (fit, fits) fits' =
    AllFit-reverse_aux obj xs ((some name, width) ∷ ys) fits (fit, fits')

Named-reverse_aux :
    (name : ℕ) (xs ys : List FieldSpec)
    → Named name xs ⊎ Named name ys
    → Named name (reverse_aux xs ys)
Named-reverse_aux name [] ys (inl named) = elim named [ ]
Named-reverse_aux name [] ys (inr named) = named
Named-reverse_aux name ((n, width) ∷ xs) ys (inl (inl here)) =
    Named-reverse_aux name xs ((n, width) ∷ ys) (inr (inl here))
Named-reverse_aux name ((n, width) ∷ xs) ys (inl (inr later)) =
    Named-reverse_aux name xs ((n, width) ∷ ys) (inl later)
Named-reverse_aux name ((n, width) ∷ xs) ys (inr named) =
    Named-reverse_aux name xs ((n, width) ∷ ys) (inr (inr named))

width-reverse_aux :
    (xs ys : List FieldSpec)
    → calculate_total_width (reverse_aux xs ys)
      ≡ calculate_total_width xs + calculate_total_width ys
width-reverse_aux [] ys = omega arith
width-reverse_aux ((n, width) ∷ xs) ys = omega (arith, width-reverse_aux xs ((n, width) ∷ ys))

-- Where every field but the padding holds a number that fits its width, or a boolean in one bit,
-- `pack_fields_to_int` succeeds with a number of the total width at most, and
-- `unpack_int_to_fields` finds the value of each field in it.
pub unpack_int_to_fields-pack :
    (obj : ℕ → FieldValue) (specs : List FieldSpec)
    → AllFit obj specs
    → (value : ℕ) × (pack_fields_to_int obj specs ≡ ok value)
      × (value < 2 ^ calculate_total_width specs)
      × ((name : ℕ)
          → Named name specs
          → lookup name (unpack_int_to_fields value specs) ≡ some (field_number (obj name)))
unfolding pack_fields_to_int pack_fields_to_bits unpack_int_to_fields
unpack_int_to_fields-pack obj specs fits =
    let fits' = AllFit-reverse_aux obj specs [] fits tt in
    let (bits, e, n) = pack_loop_lem obj (reverse specs) fits' in
    let same : or_bits 0 0 bits ≡ packed obj (reverse specs) =
      or_bits_lem bits 0 0 (omega arith) ∙ omega (arith, n) in
    let width : calculate_total_width (reverse specs) ≡ calculate_total_width specs =
      width-reverse_aux specs [] ∙ omega arith in
    (
      or_bits 0 0 bits,
      rw e refl,
      rw same (
          subst (λ (w : ℕ). packed obj (reverse specs) < 2 ^ w) width
            (packed_small obj (reverse specs) fits')),
      λ name named.
          unpack_loop_lem obj (or_bits 0 0 bits) 0 (reverse specs) [] name fits'
            (omega (arith, same)) (inr (Named-reverse_aux name specs [] (inl named))),
    )
