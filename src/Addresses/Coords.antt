-- ===== src/Addresses/Coords.antt =====
-- The coordinate functions of python/zamlet/addresses.py: which jamlet of which kamlet holds a
-- word of a vector line.
pub mod Inverse
use zamlet.Common.{ℕ, ◌+◌, ◌-◌, ◌*◌, ◌/◌, ◌%◌, bit_and, ◌==◌, Result, ok, assert, ◌>>=◌, ◌>>◌}
use zamlet.Params.{ZamletParams, west_offset, north_offset}
use zamlet.Moore.{moore_d2xy, moore_xy2d}

pub data WordOrder : Type 0 where
  standard moore : WordOrder

-- `Ordering`: the word order of a vector line, and the width in bits of its elements.
pub record LineOrdering : Type 0 where
  pub word_order : WordOrder
  pub ew : ℕ

module _ (params : ZamletParams) where
  open params use {k_cols, k_rows, j_cols, j_rows}

  abbrev pub total_cols : ℕ
  total_cols = j_cols * k_cols

  abbrev pub total_rows : ℕ
  total_rows = j_rows * k_rows

  pub vw_index_to_j_coords : WordOrder → ℕ → Result (ℕ × ℕ)
  vw_index_to_j_coords standard vw_index = ok (vw_index % total_cols, vw_index / total_cols)
  vw_index_to_j_coords moore vw_index = do
    assert (total_cols == total_rows)
    assert (bit_and total_cols (total_cols - 1) == 0)
    moore_d2xy total_cols vw_index

  pub j_coords_to_vw_index : WordOrder → ℕ → ℕ → Result ℕ
  j_coords_to_vw_index standard jx jy = ok (jy * total_cols + jx)
  j_coords_to_vw_index moore jx jy = do
    assert (total_cols == total_rows)
    assert (bit_and total_cols (total_cols - 1) == 0)
    ok (moore_xy2d total_cols jx jy)

  pub vw_index_to_routing_coords : WordOrder → ℕ → Result (ℕ × ℕ)
  vw_index_to_routing_coords word_order vw_index = do
    c ← vw_index_to_j_coords word_order vw_index
    ok (c.0 + west_offset params, c.1 + north_offset params)

  -- The kamlet of a jamlet, and the jamlet's place in it.
  pub j_coords_to_k_indices : ℕ → ℕ → ℕ × ℕ
  j_coords_to_k_indices jx jy =
      let kx = jx / j_cols in
      let ky = jy / j_rows in
      let j_in_k_x = jx % j_cols in
      let j_in_k_y = jy % j_rows in (ky * k_cols + kx, j_in_k_y * j_cols + j_in_k_x)

  pub vw_index_to_k_indices : WordOrder → ℕ → Result (ℕ × ℕ)
  vw_index_to_k_indices word_order vw_index = do
    c ← vw_index_to_j_coords word_order vw_index
    ok (j_coords_to_k_indices c.0 c.1)

  pub k_indices_to_j_coords : ℕ → ℕ → ℕ × ℕ
  k_indices_to_j_coords k_index j_in_k_index =
      let kx = k_index % k_cols in
      let ky = k_index / k_cols in
      let j_in_k_x = j_in_k_index % j_cols in
      let j_in_k_y = j_in_k_index / j_cols in (kx * j_cols + j_in_k_x, ky * j_rows + j_in_k_y)

  pub k_indices_to_routing_coords : ℕ → ℕ → ℕ × ℕ
  k_indices_to_routing_coords k_index j_in_k_index =
      let (jx, jy) = k_indices_to_j_coords k_index j_in_k_index in
      (jx + west_offset params, jy + north_offset params)

  pub k_indices_to_vw_index : WordOrder → ℕ → ℕ → Result ℕ
  k_indices_to_vw_index word_order k_index j_in_k_index =
      let (jx, jy) = k_indices_to_j_coords k_index j_in_k_index in
      j_coords_to_vw_index word_order jx jy
