-- ===== src/ControlStructures/IntWords.antt =====
-- The words of a number.
use zamlet.Common.{
  AllBelow, ℕ, zero, suc, ◌+◌, ◌-◌, ◌*◌, ◌/◌, ◌^◌, ◌≤◌, ◌<◌, ◌≡◌, refl, sym, ap, ◌∙◌, arith, ◌==◌,
  ==→eq, lt→ltb, Bool-cases, inl, inr, List, [], ◌∷◌, length, ok, err, value_error,
}
use native.Mathlib.Nat.{one-le-pow, mod-lt, div-add-mod, mul-suc, mul-le-mul_left, pow-le-pow_right}
use zamlet.Bits.{bit_and-mask}
use zamlet.Digits.{join_lt}
use zamlet.ControlStructures.RoundTrip.{pow_sum}
use zamlet.ControlStructures.{word_loop, int_to_words}

-- The number of a list of words, the lowest first.
abbrev pub words_number : ℕ → List ℕ → ℕ
words_number w [] = 0
words_number w (x ∷ xs) = x + 2 ^ w * words_number w xs

-- `2 ^ w`, `n` times.
abbrev pub shift_of : ℕ → ℕ → ℕ
shift_of w zero = 1
shift_of w (suc n) = 2 ^ w * shift_of w n

word_loop_lem :
    (w n value : ℕ)
    → let split = word_loop w n value in
      (length split.0 ≡ n)
      × AllBelow (2 ^ w) split.0
      × (words_number w split.0 + shift_of w n * split.1 ≡ value)
unfolding word_loop
word_loop_lem w zero value = (refl, tt, omega arith)
word_loop_lem w (suc n) value =
    let (l, below, sum) = word_loop_lem w n (value / 2 ^ w) in
    (
      ap suc l,
      (rw (bit_and-mask w value) (mod-lt value (one-le-pow w 2 (omega arith))), below),
      rw (bit_and-mask w value)
          (omega (arith, ap (λ (t : ℕ). 2 ^ w * t) sum, div-add-mod value (2 ^ w))),
    )

shift_of_lem : (w n : ℕ) → shift_of w n ≡ 2 ^ (w * n)
shift_of_lem w zero = let e : w * zero ≡ 0 = omega arith in sym (ap (λ (t : ℕ). 2 ^ t) e)
shift_of_lem w (suc n) =
    let e : w + w * n ≡ w * suc n = omega (arith, mul-suc w n) in
    ap (λ (t : ℕ). 2 ^ w * t) (shift_of_lem w n) ∙ sym (pow_sum w (w * n)) ∙ ap (λ (t : ℕ). 2 ^ t) e

words_number_small :
    (w : ℕ) (xs : List ℕ) → AllBelow (2 ^ w) xs → words_number w xs < shift_of w (length xs)
words_number_small w [] below = omega arith
words_number_small w (x ∷ xs) (lt, below) = omega (
  arith,
  join_lt x (words_number w xs) (2 ^ w) (shift_of w (length xs)) lt (words_number_small w xs below),
)

-- As many words as `original_width` bits need.
abbrev pub word_count : ℕ → ℕ → ℕ
word_count original_width word_width = (original_width + word_width - 1) / word_width

word_count_enough :
    (original_width w : ℕ) → 0 < w → original_width ≤ w * word_count original_width w
word_count_enough original_width w pos =
    omega (arith, div-add-mod (original_width + w - 1) w, mod-lt (original_width + w - 1) pos)

-- For a positive word width, `int_to_words` of a value that has the original width yields as many
-- words as that width needs, each in the word width, which make the value again, and it raises a
-- ValueError for a value that these words cannot hold.
pub int_to_words_lem :
    (value original_width word_width : ℕ)
    → 0 < word_width
    → let n = word_count original_width word_width in
      (value < 2 ^ original_width
        → (words : List ℕ) × (int_to_words value original_width word_width ≡ ok words)
          × (length words ≡ n)
          × AllBelow (2 ^ word_width) words
          × (words_number word_width words ≡ value))
      × (2 ^ (word_width * n) ≤ value
          → int_to_words value original_width word_width ≡ err value_error)
unfolding int_to_words
int_to_words_lem value original_width w pos =
    let n = word_count original_width w in
    let split = word_loop w n value in
    let (l, below, sum) = word_loop_lem w n value in
    let low = words_number_small w split.0 below in
    let whole : shift_of w n ≡ 2 ^ (w * n) = shift_of_lem w n in
    let bound = pow-le-pow_right {n = 2} (omega arith) (word_count_enough original_width w pos) in
    elim (Bool-cases (split.1 == 0)) [
      | inl nothing ↦
          let zero_left : split.1 ≡ 0 = ==→eq split.1 0 nothing in
          let all : words_number w split.0 ≡ value =
            omega (arith, sum, ap (λ (t : ℕ). shift_of w n * t) zero_left) in
          (
            (λ _. (split.0, rw (lt→ltb 0 w pos, nothing) refl, l, below, all)),
            λ big. absurd (omega (arith, big, whole, all, low, ap (λ (t : ℕ). shift_of w t) l)),
          )
      | inr more ↦
          let one_le : 1 ≤ split.1 = ground arith in
          let rest = mul-le-mul_left (shift_of w n) one_le in
          (
            (λ small. absurd (omega (arith, small, bound, whole, sum, rest))),
            λ _. rw (lt→ltb 0 w pos, more) refl,
          )
    ]
