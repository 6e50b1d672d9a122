-- ===== src/Tests.antt =====
-- The theorems at concrete inputs, in the default configuration of python/zamlet/params.py and in
-- one with a square grid.
use zamlet.Common.{ℕ, ◌*◌, ◌<◌, ◌≡◌, ◌↔◌, refl, arith, ok}
use zamlet.Common.Int.{negsuc}
use zamlet.Params.{ZamletParams, default_params, post_init, j_in_k, k_in_l, vline_bytes}
use zamlet.Params.Valid.{Sizes, IsValid, as_ints, post_init_iff}
use zamlet.Moore.{moore_d2xy, moore_xy2d}
use zamlet.Moore.Inverse.{moore_inverse}
use zamlet.Addresses.Coords.{LineOrdering, moore, j_coords_to_k_indices, k_indices_to_j_coords}
use zamlet.Addresses.Coords.Inverse.{j_coords-k_indices}
use zamlet.Addresses.Vline.{
  LogicalVlineAddress, PhysicalVlineAddress, KmAddr, logical_to_physical_vline_addr,
  physical_to_logical_vline_addr, logical_to_k_maddr, k_maddr_j_in_k_index,
  k_maddr_to_logical_vline_addr,
}
use zamlet.Addresses.Vline.Reorder.{Divides, physical-logical}
use zamlet.Addresses.Vline.Distribute.{logical-k_maddr}
use zamlet.Network.Router.{single}
use zamlet.Network.Router.Delivery.{follow, single_delivery}

-- Sixteen jamlets in a square of kamlets of two by two.
abbrev square : ZamletParams
square = record default_params { k_cols = 2; k_rows = 2; j_cols = 2; j_rows = 2 }

square-Sizes : Sizes square
square-Sizes = record {
  k_cols_pos = omega arith;
  k_rows_pos = omega arith;
  j_cols_pos = omega arith;
  j_rows_pos = omega arith;
  word_pos = omega arith;
  page_pos = omega arith;
  slot_pos = omega arith;
}

abbrev moore_32 : LineOrdering
moore_32 = record { word_order = moore; ew = 32 }

square_32 : Divides square 32
square_32 = record { ew_pos = omega arith; whole = refl }

abbrev logical_address : LogicalVlineAddress
logical_address = record { index = 3; ordering = moore_32; bit_addr = 165 }

abbrev physical_address : PhysicalVlineAddress
physical_address = record { index = 3; ordering = moore_32; bit_addr = 165 }

moore_inverse_example :
    (c : ℕ × ℕ) × (moore_d2xy 4 9 ≡ ok c) × (c.0 < 4) × (c.1 < 4) × (moore_xy2d 4 c.0 c.1 ≡ 9)
moore_inverse_example = moore_inverse 1 9 (omega arith)

j_coords-k_indices_example :
    let (k, j) = j_coords_to_k_indices square 3 1 in
    (k < k_in_l square) × (j < j_in_k square) × (k_indices_to_j_coords square k j ≡ (3, 1))
j_coords-k_indices_example = j_coords-k_indices square square-Sizes 3 1 (omega arith) (omega arith)

logical-k_maddr_example :
    (m : KmAddr) × (logical_to_k_maddr square logical_address ≡ ok m)
    × (m.k_index < k_in_l square)
    × (k_maddr_j_in_k_index square m < j_in_k square)
    × (k_maddr_to_logical_vline_addr square m ≡ ok logical_address)
logical-k_maddr_example =
    logical-k_maddr square logical_address square-Sizes (1, refl, refl) square_32 (omega arith)

physical-logical_example :
    (l : LogicalVlineAddress) × (physical_to_logical_vline_addr square physical_address ≡ ok l)
    × (l.bit_addr < vline_bytes square * 8)
    × (logical_to_physical_vline_addr square l ≡ physical_address)
physical-logical_example =
    physical-logical square physical_address square-Sizes square_32 (omega arith)

single_delivery_example :
    follow 8 1 4 (record { target_x = 5; target_y = 2; send_type = single }) ≡ ok (5, 2)
single_delivery_example = single_delivery 8 1 4 5 2 (omega arith)

post_init_iff_example : (post_init (as_ints default_params) ≡ ok tt) ↔ IsValid default_params
post_init_iff_example = post_init_iff default_params

-- Two negative numbers of kamlets are accepted.
negative_accepted :
    post_init (record (as_ints default_params) { k_cols = negsuc 1; k_rows = negsuc 0 }) ≡ ok tt
unfolding post_init
negative_accepted = refl
