-- ===== src/Moore.antt =====
-- python/zamlet/moore.py: the Moore curve on a square grid whose side is a power of two.
mod Signed
mod Hilbert
pub mod Inverse
use zamlet.Common.{
  ℕ, zero, suc, ◌+◌, ◌-◌, ◌*◌, ◌/◌, ◌%◌, bit_and, bit_xor, Bool, true, false, ◌&&◌, not,
  if◌then◌else◌, ltb, ◌==◌, Result, ok, guard, zero_division, ◌>>◌,
}
use zamlet.Common.Int.{ℤ, pos, sub_ℕ, sub_ℤ, int_and}

-- `_hilbert_rot`, with `flip v` for the source's `n - 1 - v`.
abbrev hilbert_rot {ℓ} : {A : Type ℓ} → (A → A) → A → A → ℕ → ℕ → A × A
hilbert_rot flip x y rx ry =
    if ry == 0 then (if rx == 1 then (flip y, flip x) else (y, x)) else (x, y)

-- The body of the loop of `_hilbert_d2xy`. Here `x, y < s`, so the subtractions are exact.
d2xy_step : ℕ → ℕ × ℕ → ℕ → ℕ × ℕ
d2xy_step s (x, y) d =
    let rx = if bit_and d 2 == 0 then 0 else 1 in
    let ry = if bit_xor (bit_and d 1) rx == 0 then 0 else 1 in
    let (x', y') = hilbert_rot (λ v. s - 1 - v) x y rx ry in (x' + s * rx, y' + s * ry)

d2xy_loop : ℕ → ℕ → ℕ → ℕ × ℕ → ℕ → ℕ × ℕ
d2xy_loop zero n s c d = c
d2xy_loop (suc fuel) n s c d = elim (ltb s n) [
  | true ↦ d2xy_loop fuel n (s * 2) (d2xy_step s c d) (d / 4)
  | false ↦ c
]

-- `s` doubles until it reaches `n`, so `n` rounds are enough.
pub hilbert_d2xy : ℕ → ℕ → ℕ × ℕ
unfolding d2xy_loop d2xy_step
hilbert_d2xy n d = d2xy_loop n n 1 (0, 0) d

-- The loop of `_hilbert_xy2d`: the coordinates may fall below zero in it.
xy2d_loop : ℕ → ℕ → ℤ → ℤ → ℕ → ℕ
xy2d_loop zero s x y d = d
xy2d_loop (suc fuel) s x y d = elim (ltb 0 s) [
  | true ↦
      let rx = if ltb 0 (int_and x s) then 1 else 0 in
      let ry = if ltb 0 (int_and y s) then 1 else 0 in
      let (x', y') = hilbert_rot (sub_ℤ (s - 1)) x y rx ry in
      xy2d_loop fuel (s / 2) x' y' (d + s * s * bit_xor (3 * rx) ry)
  | false ↦ d
]

-- `s` halves until it is 0, so `n` rounds are enough.
pub hilbert_xy2d : ℕ → ℤ → ℤ → ℕ
unfolding xy2d_loop
hilbert_xy2d n x y = xy2d_loop n (n / 2) x y 0

-- `moore_d2xy`: for n = 1 it divides by zero.
pub moore_d2xy : ℕ → ℕ → Result (ℕ × ℕ)
moore_d2xy n d =
    let half = n / 2 in
    let quarter = half * half in
    let quadrant = d / quarter in
    let local_d = d % quarter in
    let (hx, hy) = hilbert_d2xy half local_d in
    do
      guard (not (quarter == 0)) zero_division
      ok (
          if quadrant == 0
          then (half - 1 - hy, hx)
          else if quadrant == 1
          then (half - 1 - hy, hx + half)
          else if quadrant == 2
          then (hy + half, half - 1 - hx + half)
          else (hy + half, half - 1 - hx))

pub moore_xy2d : ℕ → ℕ → ℕ → ℕ
moore_xy2d n x y =
    let half = n / 2 in
    let quarter = half * half in
    if ltb x half && ltb y half
    then 0 * quarter + hilbert_xy2d half (pos y) (sub_ℕ half (x + 1))
    else if ltb x half
    then 1 * quarter + hilbert_xy2d half (sub_ℕ y half) (sub_ℕ half (x + 1))
    else if not (ltb y half)
    then 2 * quarter + hilbert_xy2d half (sub_ℕ n (y + 1)) (sub_ℕ x half)
    else 3 * quarter + hilbert_xy2d half (sub_ℕ half (y + 1)) (sub_ℕ x half)
