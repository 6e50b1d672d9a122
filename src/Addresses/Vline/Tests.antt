-- ===== src/Addresses/Vline/Tests.antt =====
-- The place in SRAM of a concrete address of kamlet memory.
use zamlet.Common.{
  ℕ, ◌+◌, ◌*◌, ◌/◌, ◌<◌, ◌≡◌, refl, arith, Option, none, some, List, [], ◌∷◌, length, ok,
}
use zamlet.Params.{default_params, j_in_k, cache_line_bytes}
use zamlet.Params.Valid.{Sizes}
use zamlet.Addresses.Coords.{standard}
use zamlet.Addresses.Vline.{
  KmAddr, JsAddr, k_maddr_to_j_saddr, addr_to_slot, matching_slots, only_slot, k_maddr_j_in_k_index,
}
use zamlet.Addresses.Vline.Sram.{to_j_saddr-injective, to_j_saddr_bounds}

default-Sizes : Sizes default_params
default-Sizes = record {
  k_cols_pos = omega arith;
  k_rows_pos = omega arith;
  j_cols_pos = omega arith;
  j_rows_pos = omega arith;
  word_pos = omega arith;
  page_pos = omega arith;
  slot_pos = omega arith;
}

-- Bit 70 of the line at memory location 5, which slot 1 holds.
abbrev cached : KmAddr
cached = record {
  k_index = 1;
  ordering = record { word_order = standard; ew = 64 };
  bit_addr = 5 * 128 + 70;
}

abbrev in_slot : JsAddr
in_slot = record {
  k_index = 1;
  j_in_k_index = 0;
  ordering = record { word_order = standard; ew = 64 };
  bit_addr = 128 + 70;
}

abbrev slots : List (Option ℕ)
slots = none ∷ some 5 ∷ some 4 ∷ []

cached_lem : k_maddr_to_j_saddr default_params slots cached ≡ ok in_slot
unfolding k_maddr_to_j_saddr addr_to_slot matching_slots only_slot k_maddr_j_in_k_index
cached_lem = refl

to_j_saddr-injective_example : cached ≡ cached
to_j_saddr-injective_example =
    to_j_saddr-injective default_params slots cached cached in_slot default-Sizes cached_lem
      cached_lem

to_j_saddr_bounds_example :
    (0 < j_in_k default_params)
    × (198 < length slots * (cache_line_bytes default_params / j_in_k default_params) * 8)
to_j_saddr_bounds_example =
    to_j_saddr_bounds default_params slots cached in_slot default-Sizes cached_lem
