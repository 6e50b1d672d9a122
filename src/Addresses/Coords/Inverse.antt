-- ===== src/Addresses/Coords/Inverse.antt =====
-- The coordinate functions of python/zamlet/addresses.py, from words to jamlets and back.
use native.Mathlib.Nat.{mul_comm}
use zamlet.Common.{
  ℕ, suc, ◌-◌, ◌*◌, ◌/◌, ◌%◌, ◌^◌, ◌<◌, ◌≡◌, refl, sym, subst, true, ap, ap₂, ◌∙◌, arith, bit_and,
  ◌==◌, ok, eq→==,
}
use zamlet.Params.{ZamletParams, j_in_k, k_in_l, j_in_l}
use zamlet.Params.Valid.{Sizes, mul_pos}
use zamlet.Moore.{moore_d2xy, moore_xy2d}
use zamlet.Moore.Inverse.{moore_inverse}
use zamlet.Digits.{split_lt, join_lt, join-mod, join-div, split-join}
use zamlet.Bits.{bit_and-pow_pred}
use zamlet.Addresses.Coords.{
  WordOrder, standard, moore, total_cols, total_rows, vw_index_to_j_coords, j_coords_to_vw_index,
  j_coords_to_k_indices, vw_index_to_k_indices, k_indices_to_j_coords, k_indices_to_vw_index,
}

-- The word order can be used on this grid: a Moore curve wants a square of side 2, 4, 8, …
abbrev pub Laid : ZamletParams → WordOrder → Type 0
Laid p standard = Unit {0}
Laid p moore = (k : ℕ) × (total_cols p ≡ 2 ^ suc k) × (total_rows p ≡ 2 ^ suc k)

-- A number below `a * b` is a remainder and a quotient.
j_in_l-grid : (p : ZamletParams) → j_in_l p ≡ total_cols p * total_rows p
j_in_l-grid p = omega arith

-- On such a square the assertions of the Moore order hold.
module _ (p : ZamletParams) (k : ℕ) (cols : total_cols p ≡ 2 ^ suc k)
    (rows : total_rows p ≡ 2 ^ suc k) where
  square : (total_cols p == total_rows p) ≡ true
  square = eq→== _ _ (cols ∙ sym rows)

  power : (bit_and (total_cols p) (total_cols p - 1) == 0) ≡ true
  power = rw cols (eq→== _ _ (bit_and-pow_pred (suc k)))

  moore_coords : (vw : ℕ) → vw_index_to_j_coords p moore vw ≡ moore_d2xy (2 ^ suc k) vw
  unfolding vw_index_to_j_coords
  moore_coords vw = rw (square, power, cols)

  moore_index : (jx jy : ℕ) → j_coords_to_vw_index p moore jx jy ≡ ok (moore_xy2d (2 ^ suc k) jx jy)
  unfolding j_coords_to_vw_index
  moore_index jx jy = rw (square, power, cols)

module _ (p : ZamletParams) (s : Sizes p) where
  -- What the jamlet at (jx, jy) has to do with word `vw` of a line.
  pub record Holds (o : WordOrder) (vw : ℕ) (c : ℕ × ℕ) : Type 0 where
    pub found : vw_index_to_j_coords p o vw ≡ ok c
    pub in_cols : c.0 < total_cols p
    pub in_rows : c.1 < total_rows p
    pub back : j_coords_to_vw_index p o c.0 c.1 ≡ ok vw

  total_cols_pos : 0 < total_cols p
  total_cols_pos = mul_pos _ _ s.j_cols_pos s.k_cols_pos

  -- Every word of a line has a jamlet in the grid, and the jamlet's coordinates give the word.
  pub vw_index-Holds :
      (o : WordOrder) (vw : ℕ) → Laid p o → vw < j_in_l p → (c : ℕ × ℕ) × Holds o vw c
  unfolding vw_index_to_j_coords j_coords_to_vw_index
  vw_index-Holds standard vw l h =
      let parts =
        split_lt vw (total_cols p) (total_rows p) total_cols_pos (omega (arith, j_in_l-grid p)) in
      (
        (vw % total_cols p, vw / total_cols p),
        record {
          found = refl;
          in_cols = parts.0;
          in_rows = parts.1;
          back = ap ok (split-join vw (total_cols p));
        },
      )
  vw_index-Holds moore vw (k, cols, rows) h =
      let (c, found, in_cols, in_rows, back) =
        moore_inverse k vw (subst (λ t. vw < t) (j_in_l-grid p ∙ ap₂ ◌*◌ cols rows) h) in
      (
        c,
        record {
          found = moore_coords p k cols rows vw ∙ found;
          in_cols = rw cols in_cols;
          in_rows = rw rows in_rows;
          back = moore_index p k cols rows c.0 c.1 ∙ ap ok back;
        },
      )

  -- The jamlet at coordinates in the grid lies in one kamlet of the grid, and
  -- `k_indices_to_j_coords` of its place there gives the coordinates again.
  pub j_coords-k_indices :
      (jx jy : ℕ)
      → jx < total_cols p
      → jy < total_rows p
      → let (k, j) = j_coords_to_k_indices p jx jy in
        (k < k_in_l p) × (j < j_in_k p) × (k_indices_to_j_coords p k j ≡ (jx, jy))
  unfolding j_coords_to_k_indices k_indices_to_j_coords
  j_coords-k_indices jx jy hx hy =
      let x = split_lt jx p.j_cols p.k_cols s.j_cols_pos hx in
      let y = split_lt jy p.j_rows p.k_rows s.j_rows_pos hy in
      (
        rw (mul_comm p.k_cols p.k_rows) (join_lt _ _ _ _ x.1 y.1),
        rw (mul_comm p.j_cols p.j_rows) (join_lt _ _ _ _ x.0 y.0),
        rw (
          join-mod (jx / p.j_cols) (jy / p.j_rows) p.k_cols x.1,
          join-div (jx / p.j_cols) (jy / p.j_rows) p.k_cols x.1,
          join-mod (jx % p.j_cols) (jy % p.j_rows) p.j_cols x.0,
          join-div (jx % p.j_cols) (jy % p.j_rows) p.j_cols x.0,
          split-join jx p.j_cols,
          split-join jy p.j_rows,
        ),
      )

  -- The other way round, every place in a kamlet is a jamlet of the grid.
  pub k_indices-j_coords :
      (k j : ℕ)
      → k < k_in_l p
      → j < j_in_k p
      → let (jx, jy) = k_indices_to_j_coords p k j in
        (jx < total_cols p) × (jy < total_rows p) × (j_coords_to_k_indices p jx jy ≡ (k, j))
  unfolding j_coords_to_k_indices k_indices_to_j_coords
  k_indices-j_coords k j hk hj =
      let a = split_lt k p.k_cols p.k_rows s.k_cols_pos hk in
      let b = split_lt j p.j_cols p.j_rows s.j_cols_pos hj in
      (
        rw (mul_comm p.j_cols p.k_cols) (join_lt _ _ _ _ b.0 a.0),
        rw (mul_comm p.j_rows p.k_rows) (join_lt _ _ _ _ b.1 a.1),
        rw (
          join-mod (j % p.j_cols) (k % p.k_cols) p.j_cols b.0,
          join-div (j % p.j_cols) (k % p.k_cols) p.j_cols b.0,
          join-mod (j / p.j_cols) (k / p.k_cols) p.j_rows b.1,
          join-div (j / p.j_cols) (k / p.k_cols) p.j_rows b.1,
          split-join k p.k_cols,
          split-join j p.j_cols,
        ),
      )

  pub k_indices_inverse :
      (o : WordOrder) (vw : ℕ)
      → Laid p o
      → vw < j_in_l p
      → (k : ℕ) × (j : ℕ) × (vw_index_to_k_indices p o vw ≡ ok (k, j))
        × (k < k_in_l p)
        × (j < j_in_k p)
        × (k_indices_to_vw_index p o k j ≡ ok vw)
  unfolding vw_index_to_k_indices k_indices_to_vw_index
  k_indices_inverse o vw l h =
      let (c, held) = vw_index-Holds o vw l h in
      let place = j_coords-k_indices c.0 c.1 held.in_cols held.in_rows in
      (
        (j_coords_to_k_indices p c.0 c.1).0,
        (j_coords_to_k_indices p c.0 c.1).1,
        rw held.found refl,
        place.0,
        place.1,
        rw place.2 held.back,
      )
