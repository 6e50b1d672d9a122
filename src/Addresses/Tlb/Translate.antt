-- ===== src/Addresses/Tlb/Translate.antt =====
-- The lookups of `TLB`, and the addresses translated by them: `TLB` and `GlobalAddress` of
-- python/zamlet/addresses.py, and `VPUAddress.to_global_addr`. A global address is its `bit_addr`.
pub mod Written
pub mod Back
pub mod Allocated
use zamlet.Common.{
  ℕ, ◌+◌, ◌-◌, ◌*◌, ◌/◌, ◌%◌, ltb, ◌==◌, if◌then◌else◌, Bool, true, false, ◌&&◌, not, Option, none,
  some, List, get_elem?, set, lookup, Result, ok, err, value_error, index_error, assertion, assert,
  or_raise, ◌>>=◌, ◌>>◌,
}
use zamlet.Params.{ZamletParams, k_in_l, cache_line_bytes, vline_bytes, page_bytes}
use zamlet.Addresses.Coords.{LineOrdering}
use zamlet.Addresses.Vline.{VpuAddress}
use zamlet.Addresses.Tlb.{
  Tlb, Pool, PageInfo, VlineInfo, LocalAddress, MemoryType, TlbFaultType, no_fault, page_fault,
  read_fault, write_fault, is_vpu_type,
}

module _ (params : ZamletParams) where
  -- `GlobalAddress.get_page` and `get_cache_line`.
  abbrev pub get_page : ℕ → ℕ
  get_page a = a / 8 / page_bytes params * page_bytes params * 8

  pub get_cache_line : ℕ → ℕ
  get_cache_line a =
      let l_cache_bytes = cache_line_bytes params * k_in_l params in
      a / 8 / l_cache_bytes * l_cache_bytes * 8

  -- The place of the page's object in the store.
  unfoldable pub page_reference : Tlb → ℕ → Result ℕ
  page_reference t a = do
    assert (a / 8 % page_bytes params == 0)
    or_raise (lookup (a / 8) t.pages) value_error

  unfoldable pub get_page_info : Tlb → ℕ → Result PageInfo
  get_page_info t a = page_reference t a >>= λ r. or_raise (get_elem? t.objects r) value_error

  unfoldable access_fault : PageInfo → Bool → TlbFaultType
  access_fault info is_write =
      if is_write && not info.writable
      then write_fault
      else if not is_write && not info.readable
      then read_fault
      else no_fault

  unfoldable fault_of : Option PageInfo → Bool → TlbFaultType
  fault_of none is_write = page_fault
  fault_of (some info) is_write = access_fault info is_write

  unfoldable page_at : Tlb → Option ℕ → Option PageInfo
  page_at t none = none
  page_at t (some r) = get_elem? t.objects r

  pub check_access : Tlb → ℕ → Bool → TlbFaultType
  check_access t a is_write =
      let page_addr = a / 8 / page_bytes params * page_bytes params in
      fault_of (page_at t (lookup page_addr t.pages)) is_write

  pub get_is_fresh : Tlb → ℕ → Result Bool
  get_is_fresh t a = do
    info ← get_page_info t (get_page a)
    let page_offset = a / 8 - get_page a / 8
    let cache_line_index = page_offset / cache_line_bytes params / k_in_l params
    assert (ltb cache_line_index (page_bytes params / cache_line_bytes params / k_in_l params))
    or_raise (get_elem? info.fresh cache_line_index) index_error

  -- A page holds its address, so the subtraction is exact.
  pub set_not_fresh : Tlb → ℕ → Result Tlb
  set_not_fresh t a = do
    r ← page_reference t (get_page a)
    info ← or_raise (get_elem? t.objects r) value_error
    let page_offset = a / 8 - info.global_addr
    let cache_line_index = page_offset / cache_line_bytes params / k_in_l params
    is_fresh ← or_raise (get_elem? info.fresh cache_line_index) index_error
    assert is_fresh
    ok (record t {
      objects = set (t.objects) r (record info { fresh = set (info.fresh) cache_line_index false });
    })

  unfoldable pub vline_index_of : ℕ → ℕ
  vline_index_of a = (a / 8 - get_page a / 8) / vline_bytes params

  unfoldable pub get_vline_info : Tlb → ℕ → Result VlineInfo
  get_vline_info t a = do
    info ← get_page_info t (get_page a)
    vlines ← or_raise info.vlines assertion
    or_raise (get_elem? vlines (vline_index_of a)) index_error

  unfoldable pub set_vline_ordering : Tlb → ℕ → LineOrdering → Bool → Result Tlb
  set_vline_ordering t a ordering weak = do
    r ← page_reference t (get_page a)
    info ← or_raise (get_elem? t.objects r) value_error
    vlines ← or_raise info.vlines assertion
    vline_info ← or_raise (get_elem? vlines (vline_index_of a)) index_error
    let written = record vline_info {
      local_address = record (vline_info.local_address) { ordering = some ordering };
      weakly_ordered = weak;
    }
    ok (record t {
      objects =
          set (t.objects) r (record info { vlines = some (set vlines (vline_index_of a) written) });
    })

  pub get_page_info_from_vpu_addr : Tlb → ℕ → Result PageInfo
  get_page_info_from_vpu_addr t a = do
    assert (a / 8 % page_bytes params == 0)
    r ← or_raise (lookup (a / 8) t.vpu_pool.in_use) value_error
    or_raise (get_elem? t.objects r) value_error

  -- `GlobalAddress.to_vpu_addr`; an address of the model has an ordering, and the source's assertion
  -- on later use of `None` is made here.
  unfoldable pub to_vpu_addr : Tlb → ℕ → Result VpuAddress
  to_vpu_addr t a = do
    vline_info ← get_vline_info t a
    assert (is_vpu_type vline_info.local_address.memory_type)
    let vline_bit_offset = a - vline_info.global_address
    ordering ← or_raise vline_info.local_address.ordering assertion
    ok (record {
      bit_addr = vline_info.local_address.bit_addr / 8 * 8 + vline_bit_offset;
      ordering = ordering;
    })

  pub to_scalar_addr : Tlb → ℕ → Result ℕ
  to_scalar_addr t a = do
    info ← get_page_info t (get_page a)
    assert (not (is_vpu_type info.memory_type))
    let page_bit_offset = a - get_page a
    assert (page_bit_offset % 8 == 0)
    ok (info.physical_addr + page_bit_offset / 8)

  -- `VPUAddress.to_global_addr`
  pub vpu_to_global_addr : Tlb → VpuAddress → Result ℕ
  vpu_to_global_addr t v = do
    let vpu_page_address = v.bit_addr / page_bytes params / 8 * page_bytes params
    let page_offset_bits = v.bit_addr - vpu_page_address * 8
    info ← get_page_info_from_vpu_addr t (vpu_page_address * 8)
    ok (info.global_addr * 8 + page_offset_bits)
