-- ===== src/Moore/Inverse.antt =====
-- `moore_d2xy` and `moore_xy2d` of python/zamlet/moore.py, on grids of side 2, 4, 8, …
use native.Mathlib.Nat.{pow-succ', div-add-mod, mod-lt, div-lt_iff_lt-mul}
use zamlet.Params.Valid.{mul_pos}
use zamlet.Common.{
  ℕ, zero, suc, ◌+◌, ◌-◌, ◌*◌, ◌/◌, ◌%◌, ◌^◌, ◌<◌, ◌≡◌, refl, ap, ◌∙◌, arith, if◌then◌else◌, ◌==◌,
  ok, false,
}
use zamlet.Common.Int.{pos, sub_ℕ}
use zamlet.Moore.Hilbert.{cell, cell_bounds, hilbert_d2xy-cell, hilbert_xy2d-cell, pow_pos}
use zamlet.Moore.{hilbert_xy2d, moore_d2xy, moore_xy2d}

-- The cell of quadrant `q` in a grid of side `2 * m` that a cell of the Hilbert curve becomes.
corner : ℕ → ℕ → ℕ × ℕ → ℕ × ℕ
corner m zero (hx, hy) = (m - 1 - hy, hx)
corner m (suc zero) (hx, hy) = (m - 1 - hy, hx + m)
corner m (suc (suc zero)) (hx, hy) = (hy + m, m - 1 - hx + m)
corner m (suc (suc (suc q))) (hx, hy) = (hy + m, m - 1 - hx)

corner_lem :
    (m q hx hy : ℕ)
    → (if q == 0
        then (m - 1 - hy, hx)
        else if q == 1
        then (m - 1 - hy, hx + m)
        else if q == 2
        then (hy + m, m - 1 - hx + m)
        else (hy + m, m - 1 - hx))
      ≡ corner m q (hx, hy)
unfolding corner
corner_lem m zero hx hy = refl
corner_lem m (suc zero) hx hy = refl
corner_lem m (suc (suc zero)) hx hy = refl
corner_lem m (suc (suc (suc q))) hx hy = ground arith

halved : (k : ℕ) → 2 ^ suc k / 2 ≡ 2 ^ k
halved k = omega (arith, pow-succ' 2 k)

moore_d2xy-corner :
    (k d : ℕ)
    → moore_d2xy (2 ^ suc k) d
      ≡ ok (corner (2 ^ k) (d / (2 ^ k * 2 ^ k)) (cell k (d % (2 ^ k * 2 ^ k))))
unfolding moore_d2xy
moore_d2xy-corner k d =
    let m = 2 ^ k in
    let quarter : (m * m == 0) ≡ false = ground (arith, mul_pos m m (pow_pos k) (pow_pos k)) in
    let local = d % (m * m) in
    rw (moore_d2xy, halved k, quarter, hilbert_d2xy-cell k local)
      (ap ok (corner_lem m (d / (m * m)) (cell k local).0 (cell k local).1))

corner_bounds :
    (m q hx hy : ℕ)
    → hx < m
    → hy < m
    → ((corner m q (hx, hy)).0 < 2 * m) × ((corner m q (hx, hy)).1 < 2 * m)
unfolding corner
corner_bounds m zero hx hy h k = omega arith
corner_bounds m (suc zero) hx hy h k = omega arith
corner_bounds m (suc (suc zero)) hx hy h k = omega arith
corner_bounds m (suc (suc (suc q))) hx hy h k = omega arith

sub_ℕ-eq-pos : (a b c : ℕ) → a ≡ b + c → sub_ℕ a b ≡ pos c
sub_ℕ-eq-pos a b c h = ground arith

moore_xy2d-corner :
    (n m q hx hy : ℕ)
    → n / 2 ≡ m
    → n ≡ 2 * m
    → hx < m
    → hy < m
    → q < 4
    → moore_xy2d n (corner m q (hx, hy)).0 (corner m q (hx, hy)).1
      ≡ q * (m * m) + hilbert_xy2d m (pos hx) (pos hy)
unfolding moore_xy2d corner
moore_xy2d-corner n m zero hx hy e f h k b = rw (moore_xy2d, e) (ground arith)
moore_xy2d-corner n m (suc zero) hx hy e f h k b = rw (moore_xy2d, e) (ground arith)
moore_xy2d-corner n m (suc (suc zero)) hx hy e f h k b = rw (moore_xy2d, e) (ground arith)
moore_xy2d-corner n m (suc (suc (suc zero))) hx hy e f h k b = rw (moore_xy2d, e) (ground arith)
moore_xy2d-corner n m (suc (suc (suc (suc q)))) hx hy e f h k b = absurd (omega arith)

-- On a grid whose side is a power of two from 2, every index below the number of cells has a cell
-- of the grid by `moore_d2xy`, and `moore_xy2d` computes the index of that cell again.
pub moore_inverse :
    (k d : ℕ)
    → d < 2 ^ suc k * 2 ^ suc k
    → (c : ℕ × ℕ) × (moore_d2xy (2 ^ suc k) d ≡ ok c)
      × (c.0 < 2 ^ suc k)
      × (c.1 < 2 ^ suc k)
      × (moore_xy2d (2 ^ suc k) c.0 c.1 ≡ d)
moore_inverse k d h =
    let m = 2 ^ k in
    let area = m * m in
    let area_pos : 0 < area = mul_pos m m (pow_pos k) (pow_pos k) in
    let double = pow-succ' 2 k in
    let q = d / area in
    let b = cell_bounds k (d % area) in
    let total : 2 ^ suc k * 2 ^ suc k ≡ 4 * area = rw double (omega arith) in
    let few : q < 4 = (div-lt_iff_lt-mul area_pos).1 (omega arith) in
    let c = corner_bounds m q (cell k (d % area)).0 (cell k (d % area)).1 b.0 b.1 in
    (
      corner m q (cell k (d % area)),
      moore_d2xy-corner k d,
      rw double c.0,
      rw double c.1,
      moore_xy2d-corner (2 ^ suc k) m q (cell k (d % area)).0 (cell k (d % area)).1 (halved k)
            double b.0 b.1 few
          ∙ rw (hilbert_xy2d-cell k (d % area) (mod-lt d area_pos))
              (omega (arith, div-add-mod d area)),
    )
