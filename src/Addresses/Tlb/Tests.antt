-- ===== src/Addresses/Tlb/Tests.antt =====
-- The TLB of python/zamlet/addresses.py with two pages.
use zamlet.Common.{
  ◌+◌, ◌*◌, ◌≡◌, refl, arith, true, some, [], ◌∷◌, replicate, lookup, insert, erase, ok, List, set,
}
use zamlet.Params.{default_params}
use zamlet.Addresses.Coords.{LineOrdering, standard}
use zamlet.Addresses.Tlb.{
  Tlb, vpu, VlineInfo, PageInfo, empty_tlb, allocate_memory, release_memory, allocate_loop,
  ensure_page, allocate_page, get_lowest_free_page, free_page, take_page, add_page, put_in_use,
  init_page_info, vline_infos, release_loop, release_page, give_back, drop_page,
}
use zamlet.Addresses.Tlb.Allocate.{
  IsTlb, empty_tlb-IsTlb, allocate_memory-IsTlb, release_memory-IsTlb,
}
use zamlet.Addresses.Tlb.Translate.{
  get_vline_info, set_vline_ordering, get_page_info, page_reference, vline_index_of, to_vpu_addr,
}
use zamlet.Params.Valid.{Sizes}
use zamlet.Addresses.Vline.{VpuAddress, KmAddr}
use zamlet.Addresses.Tlb.Chain.{
  global_to_k_maddr, k_maddr_to_global_addr, k_maddr_to_global-global_to_k_maddr,
}
use zamlet.Addresses.Tlb.Translate.Back.{AreLines, IsResident, set-AreLines, vline_infos-AreLines}

-- Two pages of 1024 bytes from address 4096, with the places that `allocate_memory` gives them.
abbrev two_pages : Tlb
two_pages = record {
  objects =
      init_page_info default_params vpu 4096 0 (replicate 32 true) true true
      ∷ init_page_info default_params vpu 5120 1024 (replicate 32 true) true true
      ∷ [];
  pages = (4096, 0) ∷ (5120, 1) ∷ [];
  vpu_pool = record {
    in_use = (0, 0) ∷ (1024, 1) ∷ [];
    freed_pages = [];
    lowest_never_used_page = 2048;
  };
  scalar_pool = record { in_use = []; freed_pages = []; lowest_never_used_page = 0 };
}

abbrev one_page : Tlb
one_page = record two_pages {
  pages = (5120, 1) ∷ [];
  vpu_pool = record {
    in_use = (1024, 1) ∷ [];
    freed_pages = 0 ∷ [];
    lowest_never_used_page = 2048;
  };
}

two_pages_lem : allocate_memory default_params 4096 2048 vpu true true empty_tlb ≡ ok two_pages
unfolding allocate_memory allocate_loop ensure_page allocate_page get_lowest_free_page free_page
    take_page add_page put_in_use init_page_info lookup insert
two_pages_lem = refl

one_page_lem : release_memory default_params 4096 1024 two_pages ≡ ok one_page
unfolding release_memory release_loop release_page give_back drop_page lookup erase init_page_info
one_page_lem = refl

two_pages-IsTlb : IsTlb default_params two_pages
two_pages-IsTlb =
    allocate_memory-IsTlb default_params empty_tlb two_pages 4096 2048 vpu true true (omega arith)
      (empty_tlb-IsTlb default_params) two_pages_lem

allocate_memory-IsTlb_example : IsTlb default_params two_pages
allocate_memory-IsTlb_example =
    allocate_memory-IsTlb default_params empty_tlb two_pages 4096 2048 vpu true true (omega arith)
      (empty_tlb-IsTlb default_params) two_pages_lem

release_memory-IsTlb_example : IsTlb default_params one_page
release_memory-IsTlb_example =
    release_memory-IsTlb default_params two_pages one_page 4096 1024 two_pages-IsTlb one_page_lem

abbrev standard_16 : LineOrdering
standard_16 = record { word_order = standard; ew = 16 }

-- The second vector line of the second page is written.
ordered :
    (t' : Tlb) × (set_vline_ordering default_params two_pages ((5120 + 16) * 8) standard_16 true
      ≡ ok t')
unfolding set_vline_ordering page_reference lookup vline_index_of init_page_info vline_infos
ordered = (_, refl)

-- Bit 5 of that line.
abbrev in_memory : VpuAddress
in_memory = record { bit_addr = (1024 + 16) * 8 + 5; ordering = standard_16 }

in_memory_lem : to_vpu_addr default_params ordered.0 ((5120 + 16) * 8 + 5) ≡ ok in_memory
unfolding to_vpu_addr get_vline_info get_page_info page_reference lookup vline_index_of
    init_page_info vline_infos ordered
in_memory_lem = refl

default-Sizes : Sizes default_params
default-Sizes = record {
  k_cols_pos = omega arith;
  k_rows_pos = omega arith;
  j_cols_pos = omega arith;
  j_rows_pos = omega arith;
  word_pos = omega arith;
  page_pos = omega arith;
  slot_pos = omega arith;
}

abbrev second_lines : List VlineInfo
second_lines = vline_infos default_params vpu 5120 1024 0 64

abbrev written_line : VlineInfo
written_line = record {
  global_address = 5120 * 8 + 1 * 16 * 8;
  local_address = record {
    memory_type = vpu;
    bit_addr = 1024 * 8 + 1 * 16 * 8;
    ordering = some standard_16;
  };
  weakly_ordered = true;
}

abbrev second_page : PageInfo
second_page = record (init_page_info default_params vpu 5120 1024 (replicate 32 true) true true) {
  vlines = some (set second_lines 1 written_line);
}

second_page_lines : AreLines default_params 5120 1024 0 (set second_lines 1 written_line)
unfolding vline_infos
second_page_lines =
    set-AreLines default_params 5120 1024 0 second_lines 1 _ written_line refl refl refl
      (vline_infos-AreLines default_params vpu 5120 1024 0 64)

second_page-IsResident :
    IsResident default_params ordered.0
      ((5120 + 16) * 8 + 5)
      1
      second_page
      (set second_lines 1 written_line)
unfolding ordered page_reference lookup init_page_info
second_page-IsResident = record {
  in_pages = refl;
  in_use = refl;
  object = refl;
  lines = refl;
  base = refl;
  aligned = refl;
  line_at = second_page_lines;
}

k_maddr_to_global-global_to_k_maddr_example :
    (m : KmAddr) × (global_to_k_maddr default_params ordered.0 ((5120 + 16) * 8 + 5) ≡ ok m)
    × (k_maddr_to_global_addr default_params ordered.0 m ≡ ok ((5120 + 16) * 8 + 5))
k_maddr_to_global-global_to_k_maddr_example =
    k_maddr_to_global-global_to_k_maddr default_params ordered.0 ((5120 + 16) * 8 + 5) 1 second_page
      (set second_lines 1 written_line) in_memory default-Sizes tt
      (record { ew_pos = omega arith; whole = refl }) second_page-IsResident in_memory_lem
