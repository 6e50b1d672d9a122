-- ===== src/Bits.antt =====
-- Shifts, masks and single bits of numbers, for the `&`, `|` and `^` of the source.
use Prim.Native.Nat.{digits, bit_and-bitwise, bit_or-bitwise, max}
use native.Mathlib.Nat.{pow-succ', div-div-eq-div-mul, one-le-pow}
use native.Mathlib.Decide.{dec_lt}
use zamlet.Digits.{row_digits}
use zamlet.Common.{
  ℕ, zero, suc, ◌+◌, ◌-◌, ◌*◌, ◌/◌, ◌%◌, ◌^◌, ◌≤◌, ◌<◌, ◌≡◌, refl, ap, ◌∙◌, min, bit_and, bit_or,
  arith,
}

-- The recursion behind the native operations, on `n` rounds: `f` on each pair of digits, and `z` of
-- the second number once the first has run out.
module _ (z : ℕ → ℕ) (f : ℕ → ℕ → ℕ) where
  abbrev rounds : ℕ → ℕ → ℕ → ℕ
  rounds = digits z f

  -- One more round than the number needs changes nothing, and so do any number of them.
  rounds-suc : (n a b : ℕ) → a ≤ n → rounds (suc n) a b ≡ rounds n a b
  rounds-suc zero zero b h = refl
  rounds-suc (suc n) zero b h = refl
  rounds-suc zero (suc a) b h = absurd (omega arith)
  rounds-suc (suc n) (suc a) b h =
      let rest = rounds-suc n (suc a / 2) (b / 2) (omega arith) in
      ap (λ t. t * 2 + f (suc a % 2) (b % 2)) rest

  rounds_from : (m n a b : ℕ) → a ≤ n → n ≤ m → rounds m a b ≡ rounds n a b
  rounds_from m n a b h k = elim (dec_lt n m) [
    | no p ↦ ap (λ t. rounds t a b) (omega arith)
    | yes p ↦ descend m p
  ]
    where
      descend : (t : ℕ) → n < t → rounds t a b ≡ rounds n a b
      descend zero p = absurd (omega arith)
      descend (suc t) p = elim (dec_lt n t) [
        | yes q ↦ rounds-suc t a b (omega arith) ∙ descend t q
        | no q ↦ let e : t ≡ n = omega arith in rw e (rounds-suc n a b h)
      ]

-- The lowest digit of `a & b`, and the others.
pub and_digit : (a b : ℕ) → bit_and a b ≡ bit_and (a / 2) (b / 2) * 2 + min (a % 2) (b % 2)
and_digit zero b = omega (arith, bit_and-bitwise 0 b, bit_and-bitwise 0 (b / 2))
and_digit (suc a) b = omega (
  arith,
  bit_and-bitwise (suc a) b,
  bit_and-bitwise (suc a / 2) (b / 2),
  rounds_from (λ _. zero) min a (suc a / 2) (suc a / 2) (b / 2) (omega arith) (omega arith),
)

and_nothing : (fuel a : ℕ) → a ≤ fuel → bit_and a 0 ≡ 0
and_nothing fuel zero h = refl
and_nothing zero (suc a) h = absurd (omega arith)
and_nothing (suc fuel) (suc a) h =
    omega (arith, and_digit (suc a) 0, and_nothing fuel (suc a / 2) (omega arith))

-- The same of `a | b`.
or_digit : (a b : ℕ) → bit_or a b ≡ bit_or (a / 2) (b / 2) * 2 + max (a % 2) (b % 2)
or_digit zero b = omega (arith, bit_or-bitwise 0 b, bit_or-bitwise 0 (b / 2))
or_digit (suc a) b = omega (
  arith,
  bit_or-bitwise (suc a) b,
  bit_or-bitwise (suc a / 2) (b / 2),
  rounds_from (λ t. t) max a (suc a / 2) (suc a / 2) (b / 2) (omega arith) (omega arith),
)

-- `low | (high << w)`, where `low` has no more than `w` bits.
pub bit_or-shift : (w low high : ℕ) → low < 2 ^ w → bit_or low (high * 2 ^ w) ≡ low + high * 2 ^ w
bit_or-shift zero low high h =
    let e : low ≡ 0 = omega arith in rw e (omega (arith, bit_or-bitwise 0 (high * 2 ^ 0)))
bit_or-shift (suc w) low high h =
    let double = pow-succ' 2 w in
    let shifted : high * 2 ^ suc w ≡ 2 * (high * 2 ^ w) = rw double (omega arith) in
    let half : high * 2 ^ suc w / 2 ≡ high * 2 ^ w = omega (arith, shifted) in
    let even : high * 2 ^ suc w % 2 ≡ 0 = omega (arith, shifted) in
    or_digit low (high * 2 ^ suc w)
    ∙ rw (half, even, bit_or-shift w (low / 2) high (omega (arith, double)))
        (omega (arith, shifted))

-- `x & ((1 << w) - 1)` keeps the low `w` bits.
pub bit_and-mask : (w x : ℕ) → bit_and x (2 ^ w - 1) ≡ x % 2 ^ w
bit_and-mask zero x = omega (arith, and_nothing x x (omega arith))
bit_and-mask (suc w) x =
    let one_le = one-le-pow w 2 (omega arith) in
    let double = pow-succ' 2 w in
    let half_pred : (2 ^ suc w - 1) / 2 ≡ 2 ^ w - 1 = omega (arith, double, one_le) in
    let odd : (2 ^ suc w - 1) % 2 ≡ 1 = omega (arith, double, one_le) in
    let digits_of = (row_digits x (2 ^ w) 2 one_le (omega arith)).0 in
    let swap : 2 ^ suc w ≡ 2 ^ w * 2 = omega (arith, double) in
    and_digit x (2 ^ suc w - 1)
    ∙ rw (half_pred, odd, bit_and-mask w (x / 2), swap, digits_of) (omega arith)

pub bit_and-one : (a : ℕ) → bit_and a 1 ≡ a % 2
bit_and-one a = omega (arith, and_digit a 1, and_nothing (a / 2) (a / 2) (omega arith))

pub bit_and_two : (a : ℕ) → bit_and a 2 ≡ 2 * (a / 2 % 2)
bit_and_two a = omega (arith, and_digit a 2, bit_and-one (a / 2))

-- `a & 2 ** j` is that power or 0, by digit `j` of `a`.
pub bit_and-pow : (j a : ℕ) → bit_and a (2 ^ j) ≡ 2 ^ j * (a / 2 ^ j % 2)
bit_and-pow zero a = omega (arith, bit_and-one a)
bit_and-pow (suc j) a =
    let half : 2 ^ suc j / 2 ≡ 2 ^ j = omega (arith, pow-succ' 2 j) in
    let even : 2 ^ suc j % 2 ≡ 0 = omega (arith, pow-succ' 2 j) in
    and_digit a (2 ^ suc j)
    ∙ rw (half, even, bit_and-pow j (a / 2), div-div-eq-div-mul a 2 (2 ^ j), pow-succ' 2 j)
        (omega arith)

-- The test by which the source recognises a power of two.
pub bit_and-pow_pred : (j : ℕ) → bit_and (2 ^ j) (2 ^ j - 1) ≡ 0
bit_and-pow_pred zero = refl
bit_and-pow_pred (suc j) =
    let one_le = one-le-pow j 2 (omega arith) in
    let double = pow-succ' 2 j in
    let half : 2 ^ suc j / 2 ≡ 2 ^ j = omega (arith, double) in
    let half_pred : (2 ^ suc j - 1) / 2 ≡ 2 ^ j - 1 = omega (arith, double, one_le) in
    and_digit (2 ^ suc j) (2 ^ suc j - 1)
    ∙ rw (half, half_pred, bit_and-pow_pred j) (omega (arith, double))
