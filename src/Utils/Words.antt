-- ===== src/Utils/Words.antt =====
-- Numbers taken apart and put together by python/zamlet/utils.py.
use native.Mathlib.Nat.{one-le-pow, pow-succ', pow-suc, pow-zero, mod-lt, div-lt_iff_lt-mul}
use zamlet.Common.{
  AllBelow, ℕ, zero, suc, ◌+◌, ◌-◌, ◌*◌, ◌/◌, ◌%◌, ◌^◌, ◌≤◌, ◌<◌, ◌≡◌, refl, sym, subst, ap, ◌∙◌,
  arith, ltb, ◌==◌, true, List, [], ◌∷◌, ◌++◌, length, length-append, ok_unique, >>=-eq-ok, ltb→lt,
  lt→ltb, ok, assert, ◌>>=◌, ◌>>◌, assert-then, eq→==, ==→eq,
}
use zamlet.Digits.{split-join, join-mod, join-div}
use zamlet.Utils.{
  bits_loop, uint_to_bits, bits_to_uint, halvings, clog2, log2ceil, list_of_uints_to_uint,
  words_loop, uint_to_list_of_uints, split_loop, no_zero, split_by_factors, join_loop,
  join_by_factors,
}

width_pos : (width : ℕ) → 0 < 2 ^ width
width_pos width = one-le-pow width 2 (omega arith)

words_loop-value :
    (width size value : ℕ)
    → (words_loop width size value).1 ≡ 0
    → list_of_uints_to_uint (words_loop width size value).0 width ≡ ok value
unfolding words_loop list_of_uints_to_uint
words_loop-value width zero value h = ap ok (sym h)
words_loop-value width (suc size) value h =
    rw
      (
        words_loop-value width size (value / 2 ^ width) h,
        lt→ltb (value % 2 ^ width) (2 ^ width) (mod-lt value (width_pos width)),
      )
      (ap ok (split-join value (2 ^ width)))

length-words_loop : (width size value : ℕ) → length (words_loop width size value).0 ≡ size
unfolding words_loop
length-words_loop width zero value = refl
length-words_loop width (suc size) value = ap suc (length-words_loop width size (value / 2 ^ width))

-- The words that `uint_to_list_of_uints` makes of a value are as many as asked for, and
-- `list_of_uints_to_uint` makes the value of them again.
pub list_of_uints-uint_to_list :
    (value width size : ℕ) (words : List ℕ)
    → uint_to_list_of_uints value width size ≡ ok words
    → (list_of_uints_to_uint words width ≡ ok value) × (length words ≡ size)
unfolding uint_to_list_of_uints
list_of_uints-uint_to_list value width size words h =
    let (fits, e) =
      assert-then ((words_loop width size value).1 == 0) (ok (words_loop width size value).0) h in
    let same = ok_unique e in
    (
      subst (λ t. list_of_uints_to_uint t width ≡ ok value) same
          (words_loop-value width size value (==→eq (words_loop width size value).1 0 fits)),
      ap length (sym same) ∙ length-words_loop width size value,
    )

words_loop-AllBelow : (width size value : ℕ) → AllBelow (2 ^ width) (words_loop width size value).0
unfolding words_loop
words_loop-AllBelow width zero value = tt
words_loop-AllBelow width (suc size) value =
    (mod-lt value (width_pos width), words_loop-AllBelow width size (value / 2 ^ width))

pub uint_to_list_of_uints-AllBelow :
    (value width size : ℕ) (words : List ℕ)
    → uint_to_list_of_uints value width size ≡ ok words
    → AllBelow (2 ^ width) words
unfolding uint_to_list_of_uints
uint_to_list_of_uints-AllBelow value width size words h =
    let (_, e) =
      assert-then ((words_loop width size value).1 == 0) (ok (words_loop width size value).0) h in
    subst (AllBelow (2 ^ width)) (ok_unique e) (words_loop-AllBelow width size value)

list_of_uints-inv :
    (width w : ℕ) (ws : List ℕ) (value : ℕ)
    → list_of_uints_to_uint (w ∷ ws) width ≡ ok value
    → (t : ℕ) × (list_of_uints_to_uint ws width ≡ ok t)
      × (w < 2 ^ width)
      × (t * 2 ^ width + w ≡ value)
unfolding list_of_uints_to_uint
list_of_uints-inv width w ws value h =
    let (t, rest, e) = >>=-eq-ok (list_of_uints_to_uint ws width) _ h in
    let (small, last) = assert-then (ltb w (2 ^ width)) (ok (t * 2 ^ width + w)) e in
    (t, rest, ltb→lt w (2 ^ width) small, ok_unique last)

list_of_uints-words_loop :
    (width : ℕ) (words : List ℕ) (value : ℕ)
    → list_of_uints_to_uint words width ≡ ok value
    → words_loop width (length words) value ≡ (words, 0)
unfolding words_loop list_of_uints_to_uint
list_of_uints-words_loop width [] value h = ap (λ t. ([], t)) (sym (ok_unique h))
list_of_uints-words_loop width (w ∷ ws) value h =
    let (t, rest, small, e) = list_of_uints-inv width w ws value h in
    let low : value % 2 ^ width ≡ w =
      ap (λ x. x % 2 ^ width) (sym e) ∙ join-mod w t (2 ^ width) small in
    let high : value / 2 ^ width ≡ t =
      ap (λ x. x / 2 ^ width) (sym e) ∙ join-div w t (2 ^ width) small in
    rw (low, high, list_of_uints-words_loop width ws t rest) refl

-- The value that `list_of_uints_to_uint` makes of words splits into those words.
pub uint_to_list-list_of_uints :
    (width : ℕ) (words : List ℕ) (value : ℕ)
    → list_of_uints_to_uint words width ≡ ok value
    → uint_to_list_of_uints value width (length words) ≡ ok words
unfolding uint_to_list_of_uints
uint_to_list-list_of_uints width words value h =
    rw (list_of_uints-words_loop width words value h) refl

words_loop_fits :
    (width size value : ℕ) → value < (2 ^ width) ^ size → (words_loop width size value).1 ≡ 0
unfolding words_loop
words_loop_fits width zero value h = omega (arith, pow-zero (2 ^ width))
words_loop_fits width (suc size) value h =
    words_loop_fits width size (value / 2 ^ width) (
      (div-lt_iff_lt-mul (width_pos width)).1 (subst (λ t. value < t) (pow-suc (2 ^ width) size) h))

-- `uint_to_list_of_uints` succeeds on every value below `(2 ** width) ** size`.
pub uint_to_list_of_uints_fits :
    (value width size : ℕ)
    → value < (2 ^ width) ^ size
    → (words : List ℕ) × (uint_to_list_of_uints value width size ≡ ok words)
unfolding uint_to_list_of_uints
uint_to_list_of_uints_fits value width size h =
    ((words_loop width size value).0, rw (words_loop_fits width size value h) refl)

bits_loop-value :
    (width value : ℕ)
    → (bits_loop width value).1 ≡ 0
    → bits_to_uint (bits_loop width value).0 ≡ value
unfolding bits_loop bits_to_uint
bits_loop-value zero value h = sym h
bits_loop-value (suc width) value h = omega (arith, bits_loop-value width (value / 2) h)

bits_loop_fits : (width value : ℕ) → value < 2 ^ width → (bits_loop width value).1 ≡ 0
unfolding bits_loop
bits_loop_fits zero value h = omega arith
bits_loop_fits (suc width) value h =
    bits_loop_fits width (value / 2) (omega (arith, pow-succ' 2 width))

-- `uint_to_bits` of a value that fits the width succeeds, and `bits_to_uint` reads the value back.
pub bits_to_uint-uint_to_bits :
    (value width : ℕ)
    → value < 2 ^ width
    → (bits : List ℕ) × (uint_to_bits value width ≡ ok bits) × (bits_to_uint bits ≡ value)
unfolding uint_to_bits
bits_to_uint-uint_to_bits value width h =
    let fits = bits_loop_fits width value h in
    ((bits_loop width value).0, rw fits refl, bits_loop-value width value fits)

halvings_zero : (fuel : ℕ) → halvings fuel 0 ≡ 0
unfolding halvings
halvings_zero zero = refl
halvings_zero (suc fuel) = refl

-- Enough rounds count the bits of the value.
halvings_lem :
    (fuel value : ℕ)
    → value ≤ fuel
    → (value < 2 ^ halvings fuel value) × (0 < value → 2 ^ halvings fuel value ≤ 2 * value)
unfolding halvings
halvings_lem fuel zero h = rw (halvings_zero fuel) (omega arith, λ p. absurd (omega arith))
halvings_lem zero (suc value) h = absurd (omega arith)
halvings_lem (suc fuel) (suc zero) h = rw (halvings_zero fuel) (omega arith, λ p. omega arith)
halvings_lem (suc fuel) (suc (suc value)) h =
    let half = suc (suc value) / 2 in
    let (below, above) = halvings_lem fuel half (omega arith) in
    let double : 2 ^ suc (halvings fuel half) ≡ 2 * 2 ^ halvings fuel half =
      pow-succ' 2 (halvings fuel half) in
    let bound = above (omega arith) in
    rw (lt→ltb 0 (suc (suc value)) (omega arith), double) (omega arith, λ p. omega arith)

-- `clog2` of a value from 2 is the exponent of the least power of two that is not below the value.
pub clog2_lem : (value : ℕ) → 1 < value → (value ≤ 2 ^ clog2 value) × (2 ^ clog2 value < 2 * value)
unfolding clog2
clog2_lem value h =
    let (below, above) = halvings_lem (value - 1) (value - 1) (omega arith) in
    (omega arith, omega (arith, above (omega arith)))

-- `log2ceil` is the number of bits of a value.
pub log2ceil_lem :
    (value : ℕ) → (value < 2 ^ log2ceil value) × (0 < value → 2 ^ log2ceil value ≤ 2 * value)
unfolding log2ceil
log2ceil_lem value = halvings_lem value value (omega arith)

abbrev pub AllPositive : List ℕ → Type 0
AllPositive [] = Unit {0}
AllPositive (factor ∷ factors) = (0 < factor) × AllPositive factors

join_loop-cons :
    (f value last factor : ℕ) (values factors : List ℕ)
    → join_loop f (value ∷ (values ++ (last ∷ []))) (factor ∷ factors) ≡ (
        assert (ltb value factor)
        >> (join_loop (f * factor) (values ++ (last ∷ [])) factors >>= λ total.
            ok (value * f + total)))
unfolding join_loop
join_loop-cons f value last factor [] factors = refl
join_loop-cons f value last factor (next ∷ values) factors = refl

split_loop-join :
    (factors : List ℕ) (f value : ℕ)
    → AllPositive factors
    → join_loop f ((split_loop factors value).0 ++ ((split_loop factors value).1 ∷ [])) factors
      ≡ ok (value * f)
unfolding split_loop join_loop
split_loop-join [] f value h = refl
split_loop-join (factor ∷ factors) f value (positive, others) =
    let whole : value * f ≡ value % factor * f + value / factor * (f * factor) =
      ap (λ t. t * f) (sym (split-join value factor)) ∙ omega arith in
    join_loop-cons f (value % factor) (split_loop factors (value / factor)).1 factor
      (split_loop factors (value / factor)).0 factors
    ∙ rw
        (
          lt→ltb (value % factor) factor (mod-lt value positive),
          split_loop-join factors (f * factor) (value / factor) others,
        )
        (ap ok (sym whole))

length-split_loop :
    (factors : List ℕ) (value : ℕ) → length (split_loop factors value).0 ≡ length factors
unfolding split_loop
length-split_loop [] value = refl
length-split_loop (factor ∷ factors) value = ap suc (length-split_loop factors (value / factor))

no_zero_lem : (factors : List ℕ) → AllPositive factors → no_zero factors ≡ true
no_zero_lem [] h = refl
no_zero_lem (factor ∷ factors) (h, rest) = rw (lt→ltb 0 factor h, no_zero_lem factors rest) refl

-- `join_by_factors` undoes `split_by_factors` with a remainder, for positive factors.
pub join_by_factors-split_by_factors :
    (value : ℕ) (factors : List ℕ)
    → AllPositive factors
    → (split_by_factors value factors true >>= λ pieces. join_by_factors pieces factors) ≡ ok value
unfolding split_by_factors join_by_factors
join_by_factors-split_by_factors value factors positive =
    let pieces = (split_loop factors value).0 in
    let n : length (pieces ++ ((split_loop factors value).1 ∷ [])) ≡ length factors + 1 =
      length-append pieces _ ∙ ap (λ t. t + 1) (length-split_loop factors value) in
    rw
      (
        no_zero_lem factors positive,
        eq→== (length (pieces ++ ((split_loop factors value).1 ∷ []))) (length factors + 1) n,
        split_loop-join factors 1 value positive,
      )
      (ap ok (omega arith))
