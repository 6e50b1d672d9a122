-- ===== src/Digits.antt =====
-- Numbers in mixed radix, `q * a + r`, as the address arithmetic and the packed words split them.
use native.Mathlib.Nat.{
  mod-lt, div-add-mod, div-lt_iff_lt-mul, mul-add-div, mul-add-mod_self_left, mod-eq_of_lt,
  div-eq_of_lt, mul_comm,
}
use zamlet.Common.{ℕ, ◌+◌, ◌*◌, ◌/◌, ◌%◌, ◌<◌, ◌≡◌, ap, ◌∙◌, arith}

pub split_lt : (n a b : ℕ) → 0 < a → n < a * b → (n % a < a) × (n / a < b)
split_lt n a b h k = (mod-lt n h, (div-lt_iff_lt-mul h).1 (omega arith))

pub join_lt : (r q a b : ℕ) → r < a → q < b → q * a + r < b * a
join_lt r q a b h k = grind arith

pub join-mod : (r q a : ℕ) → r < a → (q * a + r) % a ≡ r
join-mod r q a h = rw (mul_comm q a, mul-add-mod_self_left a q r) (mod-eq_of_lt h)

pub join-div : (r q a : ℕ) → r < a → (q * a + r) / a ≡ q
join-div r q a h =
    rw (mul_comm q a, mul-add-div {m = a} (omega arith) q r, div-eq_of_lt h) (omega arith)

pub split-join : (n a : ℕ) → n / a * a + n % a ≡ n
split-join n a = omega (arith, div-add-mod n a)

-- The two lowest digits together, and the rest.
pub row_digits :
    (b c w : ℕ) → 0 < c → 0 < w → (b % (c * w) ≡ b / w % c * w + b % w) × (b / (c * w) ≡ b / w / c)
row_digits b c w hc hw =
    let q = b / w in
    let inner = join_lt (b % w) (q % c) w c (mod-lt b hw) (mod-lt q hc) in
    let q_parts : q / c * (c * w) + q % c * w ≡ q * w =
      omega (arith, ap (λ t. t * w) (split-join q c)) in
    let whole : b ≡ q / c * (c * w) + (q % c * w + b % w) =
      omega (arith, split-join b w, q_parts) in
    (
      ap (λ t. t % (c * w)) whole ∙ join-mod (q % c * w + b % w) (q / c) (c * w) inner,
      ap (λ t. t / (c * w)) whole ∙ join-div (q % c * w + b % w) (q / c) (c * w) inner,
    )
