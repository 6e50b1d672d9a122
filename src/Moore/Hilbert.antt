-- ===== src/Moore/Hilbert.antt =====
-- The two directions of the Hilbert curve of python/zamlet/moore.py, on a grid of side 2 ** k.
use native.Mathlib.Nat.{
  pow-succ', pow-suc, mod_def, mod-eq_of_lt, div-div-eq-div-mul, div-add-mod, one-le-pow,
}
use native.Mathlib.Decide.{dec_lt}
use zamlet.Common.{
  bit_xor, lt→ltb, false, ℕ, zero, suc, ◌+◌, ◌-◌, ◌*◌, ◌/◌, ◌%◌, ◌^◌, ◌≤◌, ◌<◌, ◌≡◌, refl, sym,
  subst, ap, ◌∙◌, arith, bit_and, ltb, if◌then◌else◌,
}
use zamlet.Common.Int.{ℤ, pos, sub_ℤ, int_and}
use zamlet.Bits.{bit_and-one, bit_and_two}
use zamlet.Moore.Signed.{Residue, pos-Residue, Residue-halve, Residue-unflip, int_and-Residue}
use zamlet.Moore.{hilbert_rot, d2xy_step, d2xy_loop, hilbert_d2xy, xy2d_loop, hilbert_xy2d}

-- The cell that index `d` has reached after `j` rounds.
pub cell : ℕ → ℕ → ℕ × ℕ
unfolding d2xy_step
cell zero d = (0, 0)
cell (suc j) d = d2xy_step (2 ^ j) (cell j d) (d / (2 ^ j * 2 ^ j))

-- What a round makes of the next digit of the index, to base four.
turn : ℕ → ℕ × ℕ → ℕ → ℕ × ℕ
turn m (x, y) zero = (y + m * 0, x + m * 0)
turn m (x, y) (suc zero) = (x + m * 0, y + m * 1)
turn m (x, y) (suc (suc zero)) = (x + m * 1, y + m * 1)
turn m (x, y) (suc (suc (suc q))) = (m - 1 - y + m * 1, m - 1 - x + m * 0)

turn_lem : (m x y d q : ℕ) → q ≡ d % 4 → d2xy_step m (x, y) d ≡ turn m (x, y) q
unfolding d2xy_step turn
turn_lem m x y d zero e =
    let two : bit_and d 2 ≡ 0 = omega (arith, bit_and_two d) in
    let one : bit_and d 1 ≡ 0 = omega (arith, bit_and-one d) in rw (two, one) (ground arith)
turn_lem m x y d (suc zero) e =
    let two : bit_and d 2 ≡ 0 = omega (arith, bit_and_two d) in
    let one : bit_and d 1 ≡ 1 = omega (arith, bit_and-one d) in rw (two, one) (ground arith)
turn_lem m x y d (suc (suc zero)) e =
    let two : bit_and d 2 ≡ 2 = omega (arith, bit_and_two d) in
    let one : bit_and d 1 ≡ 0 = omega (arith, bit_and-one d) in rw (two, one) (ground arith)
turn_lem m x y d (suc (suc (suc zero))) e =
    let two : bit_and d 2 ≡ 2 = omega (arith, bit_and_two d) in
    let one : bit_and d 1 ≡ 1 = omega (arith, bit_and-one d) in rw (two, one) (ground arith)
turn_lem m x y d (suc (suc (suc (suc q)))) e = absurd (omega arith)

-- A cell lies in its grid, and so does the next.
turn_bounds :
    (m x y q : ℕ) → x < m → y < m → ((turn m (x, y) q).0 < 2 * m) × ((turn m (x, y) q).1 < 2 * m)
unfolding turn
turn_bounds m x y zero h k = omega arith
turn_bounds m x y (suc zero) h k = omega arith
turn_bounds m x y (suc (suc zero)) h k = omega arith
turn_bounds m x y (suc (suc (suc q))) h k = omega arith

cell-suc : (j d : ℕ) → cell (suc j) d ≡ turn (2 ^ j) (cell j d) (d / (2 ^ j * 2 ^ j) % 4)
unfolding cell
cell-suc j d = turn_lem (2 ^ j) (cell j d).0 (cell j d).1 (d / (2 ^ j * 2 ^ j)) _ refl

cell_zero : (d : ℕ) → cell 0 d ≡ (0, 0)
unfolding cell
cell_zero d = refl

pub cell_bounds : (j d : ℕ) → ((cell j d).0 < 2 ^ j) × ((cell j d).1 < 2 ^ j)
cell_bounds zero d = rw (cell_zero d) (omega arith)
cell_bounds (suc j) d =
    let h = cell_bounds j d in
    rw (cell-suc j d, pow-succ' 2 j)
      (turn_bounds (2 ^ j) (cell j d).0 (cell j d).1 (d / (2 ^ j * 2 ^ j) % 4) h.0 h.1)

pub pow_pos : (j : ℕ) → 0 < 2 ^ j
pow_pos j = one-le-pow j 2 (omega arith)

pow_mono : (j k : ℕ) → j < k → 2 ^ j < 2 ^ k
pow_mono j zero h = absurd (omega arith)
pow_mono j (suc k) h = elim (dec_lt j k) [
  | yes p ↦ omega (arith, pow_mono j k p, pow-succ' 2 k)
  | no p ↦ let e : j ≡ k = omega arith in rw e (omega (arith, pow-succ' 2 k, pow_pos k))
]

quad : (t : ℕ) → 2 ^ t * 2 ^ t * 4 ≡ 2 ^ suc t * 2 ^ suc t
quad t = rw (pow-succ' 2 t) (omega arith)

-- The loop of `_hilbert_d2xy`, entered after `j` rounds, ends after `k`.
d2xy_loop-cell :
    (fuel k j d : ℕ)
    → j ≤ k
    → k ≤ fuel + j
    → d2xy_loop fuel (2 ^ k) (2 ^ j) (cell j d) (d / (2 ^ j * 2 ^ j)) ≡ cell k d
unfolding d2xy_loop cell
d2xy_loop-cell zero k j d h e = ap (λ t. cell t d) (omega arith)
d2xy_loop-cell (suc fuel) k j d h e = elim (dec_lt j k) [
  | no p ↦
      let same : j ≡ k = omega arith in
      let stop : ltb (2 ^ j) (2 ^ k) ≡ false = rw same (ground arith) in
      rw (d2xy_loop, stop) (ap (λ t. cell t d) same)
  | yes p ↦
      rw
        (
          d2xy_loop,
          lt→ltb _ _ (pow_mono j k p),
          div-div-eq-div-mul d (2 ^ j * 2 ^ j) 4,
          quad j,
          ← pow-suc 2 j,
        )
        (d2xy_loop-cell fuel k (suc j) d p (omega arith))
]

-- The bit that a residue has.
bit_of : ℤ → ℕ → ℕ
bit_of x m = if ltb 0 (int_and x m) then 1 else 0

bit_of-Residue :
    (j v b : ℕ) (x : ℤ)
    → v < 2 ^ j
    → b < 2
    → Residue (2 * 2 ^ j) (v + 2 ^ j * b) x
    → bit_of x (2 ^ j) ≡ b
unfolding bit_of
bit_of-Residue j v zero x hv hb r = rw (int_and-Residue j v 0 x hv hb r) (ground arith)
bit_of-Residue j v (suc zero) x hv hb r =
    rw (int_and-Residue j v 1 x hv hb r) (ground (arith, pow_pos j))
bit_of-Residue j v (suc (suc b)) x hv hb r = absurd (omega arith)

-- One round of `_hilbert_xy2d` undoes one of `_hilbert_d2xy`.
record Undone (m cx cy q : ℕ) (x y : ℤ) : Type 0 where
  digit : bit_xor (3 * bit_of x m) (bit_of y m) ≡ q
  x_back : Residue m cx (hilbert_rot (sub_ℤ (m - 1)) x y (bit_of x m) (bit_of y m)).0
  y_back : Residue m cy (hilbert_rot (sub_ℤ (m - 1)) x y (bit_of x m) (bit_of y m)).1

-- The same for the bits that the round reads.
undone :
    (j cx cy q rx ry vx vy : ℕ) (x y : ℤ)
    → vx < 2 ^ j
    → vy < 2 ^ j
    → rx < 2
    → ry < 2
    → Residue (2 * 2 ^ j) (vx + 2 ^ j * rx) x
    → Residue (2 * 2 ^ j) (vy + 2 ^ j * ry) y
    → bit_xor (3 * rx) ry ≡ q
    → Residue (2 ^ j) cx (hilbert_rot (sub_ℤ (2 ^ j - 1)) x y rx ry).0
    → Residue (2 ^ j) cy (hilbert_rot (sub_ℤ (2 ^ j - 1)) x y rx ry).1
    → Undone (2 ^ j) cx cy q x y
undone j cx cy q rx ry vx vy x y hx hy hrx hry p s e back_x back_y =
    let ex = bit_of-Residue j vx rx x hx hrx p in
    let ey = bit_of-Residue j vy ry y hy hry s in
    record { digit = rw (ex, ey) e; x_back = rw (ex, ey) back_x; y_back = rw (ex, ey) back_y }

turn-Undone :
    (j cx cy q : ℕ) (x y : ℤ)
    → cx < 2 ^ j
    → cy < 2 ^ j
    → q < 4
    → Residue (2 * 2 ^ j) (turn (2 ^ j) (cx, cy) q).0 x
    → Residue (2 * 2 ^ j) (turn (2 ^ j) (cx, cy) q).1 y
    → Undone (2 ^ j) cx cy q x y
unfolding turn
turn-Undone j cx cy zero x y hx hy hq p s =
    undone j cx cy 0 0 0 cy cx x y hy hx (omega arith) (omega arith) p s refl
      (Residue-halve (2 ^ j) cx 0 y hx (omega arith) s)
      (Residue-halve (2 ^ j) cy 0 x hy (omega arith) p)
turn-Undone j cx cy (suc zero) x y hx hy hq p s =
    undone j cx cy 1 0 1 cx cy x y hx hy (omega arith) (omega arith) p s refl
      (Residue-halve (2 ^ j) cx 0 x hx (omega arith) p)
      (Residue-halve (2 ^ j) cy 1 y hy (omega arith) s)
turn-Undone j cx cy (suc (suc zero)) x y hx hy hq p s =
    undone j cx cy 2 1 1 cx cy x y hx hy (omega arith) (omega arith) p s refl
      (Residue-halve (2 ^ j) cx 1 x hx (omega arith) p)
      (Residue-halve (2 ^ j) cy 1 y hy (omega arith) s)
turn-Undone j cx cy (suc (suc (suc zero))) x y hx hy hq p s =
    let m = 2 ^ j in
    undone j cx cy 3 1 0 (m - 1 - cy) (m - 1 - cx) x y (omega arith) (omega arith) (omega arith)
      (omega arith) p s refl
      (Residue-unflip m cx y hx (Residue-halve m (m - 1 - cx) 0 y (omega arith) (omega arith) s))
      (Residue-unflip m cy x hy (Residue-halve m (m - 1 - cy) 1 x (omega arith) (omega arith) p))
turn-Undone j cx cy (suc (suc (suc (suc q)))) x y hx hy hq p s = absurd (omega arith)

xy2d_loop_stop : (fuel : ℕ) (x y : ℤ) (acc : ℕ) → xy2d_loop fuel 0 x y acc ≡ acc
unfolding xy2d_loop
xy2d_loop_stop zero x y acc = refl
xy2d_loop_stop (suc fuel) x y acc = refl

xy2d_loop_round :
    (fuel m : ℕ) (x y : ℤ) (acc : ℕ)
    → 0 < m
    → xy2d_loop (suc fuel) m x y acc
      ≡ xy2d_loop fuel
          (m / 2)
          (hilbert_rot (sub_ℤ (m - 1)) x y (bit_of x m) (bit_of y m)).0
          (hilbert_rot (sub_ℤ (m - 1)) x y (bit_of x m) (bit_of y m)).1
          (acc + m * m * bit_xor (3 * bit_of x m) (bit_of y m))
unfolding xy2d_loop bit_of
xy2d_loop_round fuel m x y acc h = rw (xy2d_loop, lt→ltb _ _ h)

mod_split : (d n : ℕ) → d % (n * 4) ≡ d % n + n * (d / n % 4)
mod_split d n =
    let q = d / n in
    let parts : n * q ≡ n * (4 * (q / 4)) + n * (q % 4) =
      omega (arith, ap (λ t. n * t) (sym (div-add-mod q 4))) in
    let whole : d % (n * 4) ≡ d - n * 4 * (q / 4) =
      mod_def d (n * 4) ∙ rw (div-div-eq-div-mul d n 4) in
    omega (arith, whole, parts, div-add-mod d n)

-- The residues of the coordinates give back the low digits of the index.
xy2d_loop-cell :
    (fuel j d acc : ℕ) (x y : ℤ)
    → j ≤ fuel
    → Residue (2 ^ j) (cell j d).0 x
    → Residue (2 ^ j) (cell j d).1 y
    → xy2d_loop fuel (2 ^ j / 2) x y acc ≡ acc + d % (2 ^ j * 2 ^ j)
xy2d_loop-cell fuel zero d acc x y h p q = xy2d_loop_stop fuel x y acc ∙ omega arith
xy2d_loop-cell zero (suc j) d acc x y h p q = absurd (omega arith)
xy2d_loop-cell (suc fuel) (suc j) d acc x y h p q =
    let c = cell j d in
    let digit = d / (2 ^ j * 2 ^ j) % 4 in
    let b = cell_bounds j d in
    let u : Undone (2 ^ j) c.0 c.1 digit x y =
      turn-Undone j c.0 c.1 digit x y b.0 b.1 (omega arith) (rw (cell-suc j d, pow-succ' 2 j) at p)
        (rw (cell-suc j d, pow-succ' 2 j) at q) in
    let half : 2 ^ suc j / 2 ≡ 2 ^ j = omega (arith, pow-succ' 2 j) in
    rw
      (
        half,
        xy2d_loop_round fuel (2 ^ j) x y acc (pow_pos j),
        u.digit,
        ← quad j,
        mod_split d (2 ^ j * 2 ^ j),
      )
      (xy2d_loop-cell fuel j d _ _ _ (omega arith) u.x_back u.y_back ∙ omega arith)

le-pow : (k : ℕ) → k ≤ 2 ^ k
le-pow zero = omega arith
le-pow (suc k) = omega (arith, le-pow k, pow-succ' 2 k, pow_pos k)

pub hilbert_d2xy-cell : (k d : ℕ) → hilbert_d2xy (2 ^ k) d ≡ cell k d
unfolding hilbert_d2xy cell
hilbert_d2xy-cell k d =
    let start : d / (2 ^ 0 * 2 ^ 0) ≡ d = omega arith in
    subst (λ t. d2xy_loop (2 ^ k) (2 ^ k) 1 (0, 0) t ≡ cell k d) start
      (d2xy_loop-cell (2 ^ k) k 0 d (omega arith) (omega (arith, le-pow k)))

pub hilbert_xy2d-cell :
    (k d : ℕ) → d < 2 ^ k * 2 ^ k → hilbert_xy2d (2 ^ k) (pos (cell k d).0) (pos (cell k d).1) ≡ d
unfolding hilbert_xy2d
hilbert_xy2d-cell k d h =
    let b = cell_bounds k d in
    xy2d_loop-cell (2 ^ k) k d 0 _ _ (le-pow k) (pos-Residue _ _ b.0) (pos-Residue _ _ b.1)
    ∙ omega (arith, mod-eq_of_lt h)
