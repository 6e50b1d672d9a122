-- ===== src/Moore/Signed.antt =====
-- The coordinates in the loop of `_hilbert_xy2d` can be negative: what counts is their residue.
use native.Mathlib.Nat.{add-mul-div_left, div-eq_of_lt}
use zamlet.Common.{ℕ, zero, suc, ◌+◌, ◌-◌, ◌*◌, ◌/◌, ◌%◌, ◌^◌, ◌<◌, ◌≡◌, subst, ap, arith}
use zamlet.Common.Int.{ℤ, pos, negsuc, sub_ℤ, int_and}
use zamlet.Bits.{bit_and-pow}

-- `x` is `v` up to `c` times `m`: above it or below it.
abbrev pub Off : ℕ → ℕ → ℕ → ℤ → Type 0
Off m v c (pos n) = n ≡ v + m * c
Off m v c (negsuc n) = v + suc n ≡ m * c

-- `v` is the residue of `x` modulo `m`.
abbrev pub Residue : ℕ → ℕ → ℤ → Type 0
Residue m v x = (v < m) × (c : ℕ) × Off m v c x

-- A coordinate in range is its own residue.
pub pos-Residue : (m v : ℕ) → v < m → Residue m v (pos v)
pos-Residue m v h = (h, 0, omega arith)

-- One binary digit less.
pub Residue-halve :
    (m v b : ℕ) (x : ℤ) → v < m → b < 2 → Residue (2 * m) (v + m * b) x → Residue m v x
Residue-halve m v zero (pos n) hv hb (_, c, e) = (hv, 2 * c, omega arith)
Residue-halve m v (suc zero) (pos n) hv hb (_, c, e) = (hv, 2 * c + 1, omega arith)
Residue-halve m v zero (negsuc n) hv hb (_, c, e) = (hv, 2 * c, omega arith)
Residue-halve m v (suc zero) (negsuc n) hv hb (_, zero, e) = absurd (omega arith)
Residue-halve m v (suc zero) (negsuc n) hv hb (_, suc c, e) = (hv, 2 * c + 1, omega arith)
Residue-halve m v (suc (suc b)) x hv hb r = absurd (omega arith)

-- `m - 1 - x` flips the residue.
pub Residue-flip : (m v : ℕ) (x : ℤ) → Residue m v x → Residue m (m - 1 - v) (sub_ℤ (m - 1) x)
Residue-flip m v (pos n) (h, zero, e) = (omega arith, 0, ground arith)
Residue-flip m v (pos n) (h, suc c, e) = (omega arith, suc c, ground arith)
Residue-flip m v (negsuc n) (h, c, e) = (omega arith, c, omega arith)

pub Residue-unflip :
    (m v : ℕ) (x : ℤ) → v < m → Residue m (m - 1 - v) x → Residue m v (sub_ℤ (m - 1) x)
Residue-unflip m v x h r =
    let same : m - 1 - (m - 1 - v) ≡ v = omega arith in
    subst (λ t. Residue m t (sub_ℤ (m - 1) x)) same (Residue-flip m (m - 1 - v) x r)

pub div_digit : (m v q n : ℕ) → v < m → n ≡ v + m * q → n / m ≡ q
div_digit m v q n h e =
    rw (e, add-mul-div_left v q {y = m} (omega arith), div-eq_of_lt h) (omega arith)

-- The digit that a residue has at `m = 2 ** j`.
pub int_and-Residue :
    (j v b : ℕ) (x : ℤ)
    → v < 2 ^ j
    → b < 2
    → Residue (2 * 2 ^ j) (v + 2 ^ j * b) x
    → int_and x (2 ^ j) ≡ 2 ^ j * b
int_and-Residue j v b (pos n) hv hb (_, c, e) =
    rw (bit_and-pow j n, div_digit (2 ^ j) v (b + 2 * c) n hv (omega arith))
      (ap (λ t. 2 ^ j * t) (omega arith))
int_and-Residue j v b (negsuc n) hv hb (_, zero, e) = absurd (omega arith)
int_and-Residue j v zero (negsuc n) hv hb (_, suc c, e) =
    rw
      (bit_and-pow j n, div_digit (2 ^ j) (2 ^ j - 1 - v) (2 * c + 1) n (omega arith) (omega arith))
      (let odd : (2 * c + 1) % 2 ≡ 1 = omega arith in rw odd (omega arith))
int_and-Residue j v (suc zero) (negsuc n) hv hb (_, suc c, e) =
    rw (bit_and-pow j n, div_digit (2 ^ j) (2 ^ j - 1 - v) (2 * c) n (omega arith) (omega arith))
      (let even : (2 * c) % 2 ≡ 0 = omega arith in rw even (omega arith))
int_and-Residue j v (suc (suc b)) (negsuc n) hv hb (_, suc c, e) = absurd (omega arith)
