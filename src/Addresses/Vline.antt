-- ===== src/Addresses/Vline.antt =====
-- The translations of python/zamlet/addresses.py between a vector line and the memories that hold
-- it: logical and physical order, kamlet memory, jamlet SRAM. The `params` field that every address
-- carries in the source is the parameter of the section. Addresses and offsets are not negative,
-- but for `KMAddr.bit_offset`, which checks the sum.
pub mod Reorder
pub mod Distribute
pub mod Sram
mod Tests
use zamlet.Common.{
  ℕ, suc, ◌+◌, ◌-◌, ◌*◌, ◌/◌, ◌%◌, ltb, leb, ◌==◌, if◌then◌else◌, Option, none, some, List, [], ◌∷◌,
  length, Result, ok, err, assertion, assert, or_raise, ◌>>=◌, ◌>>◌,
}
use zamlet.Common.Int.{ℤ, pos, negsuc, add_ℤ}
use zamlet.Params.{ZamletParams, j_in_k, j_in_l, cache_line_bytes, vline_bytes}
use zamlet.Addresses.Coords.{LineOrdering, vw_index_to_k_indices, k_indices_to_vw_index}

pub record VpuAddress : Type 0 where
  pub bit_addr : ℕ
  pub ordering : LineOrdering

-- `index` is the vector line in VPU memory, `bit_addr` the bit in it, elements in order.
pub record LogicalVlineAddress : Type 0 where
  pub index : ℕ
  pub ordering : LineOrdering
  pub bit_addr : ℕ

-- Here `bit_addr` counts the elements as the jamlets hold them.
pub record PhysicalVlineAddress : Type 0 where
  pub index : ℕ
  pub ordering : LineOrdering
  pub bit_addr : ℕ

pub record KmAddr : Type 0 where
  pub k_index : ℕ
  pub ordering : LineOrdering
  pub bit_addr : ℕ

pub record JsAddr : Type 0 where
  pub k_index : ℕ
  pub j_in_k_index : ℕ
  pub ordering : LineOrdering
  pub bit_addr : ℕ

-- `CacheTable.addr_to_slot`, over the `memory_loc` of each slot: the slots that match.
pub matching_slots : ℕ → ℕ → List (Option ℕ) → List ℕ
matching_slots memory_loc slot [] = []
matching_slots memory_loc slot (none ∷ states) = matching_slots memory_loc (suc slot) states
matching_slots memory_loc slot (some loc ∷ states) =
    let rest = matching_slots memory_loc (suc slot) states in
    if loc == memory_loc then slot ∷ rest else rest

pub only_slot : List ℕ → Result (Option ℕ)
only_slot [] = ok none
only_slot (slot ∷ []) = ok (some slot)
only_slot (_ ∷ _ ∷ _) = err assertion

module _ (params : ZamletParams) where
  open params use {word_bytes}

  pub vpu_offset_bits : VpuAddress → ℕ → VpuAddress
  vpu_offset_bits a n_bits = record a { bit_addr = a.bit_addr + n_bits }

  unfoldable pub vpu_to_logical_vline_addr : VpuAddress → LogicalVlineAddress
  vpu_to_logical_vline_addr a = record {
    index = a.bit_addr / 8 / (word_bytes * j_in_l params);
    ordering = a.ordering;
    bit_addr = a.bit_addr % (word_bytes * j_in_l params * 8);
  }

  pub logical_offset_bits : LogicalVlineAddress → ℕ → LogicalVlineAddress
  logical_offset_bits a n_bits =
      let new_bit_addr = a.bit_addr + n_bits in
      record a {
        index = a.index + new_bit_addr / (vline_bytes params * 8);
        bit_addr = new_bit_addr % (vline_bytes params * 8);
      }

  pub logical_to_vpu_addr : LogicalVlineAddress → VpuAddress
  logical_to_vpu_addr a =
      let vline_bits = j_in_l params * word_bytes * 8 in
      record { bit_addr = a.index * vline_bits + a.bit_addr; ordering = a.ordering }

  pub logical_to_physical_vline_addr : LogicalVlineAddress → PhysicalVlineAddress
  logical_to_physical_vline_addr a =
      let element_index = a.bit_addr / a.ordering.ew in
      let bit_in_element = a.bit_addr % a.ordering.ew in
      record {
        index = a.index;
        ordering = a.ordering;
        bit_addr =
            element_index % j_in_l params * word_bytes * 8
            + element_index / j_in_l params * a.ordering.ew
            + bit_in_element;
      }

  pub physical_offset_bits : PhysicalVlineAddress → ℕ → PhysicalVlineAddress
  physical_offset_bits a n_bits =
      let incremented = a.bit_addr + n_bits in
      record a {
        index = a.index + incremented / (vline_bytes params * 8);
        bit_addr = incremented % (vline_bytes params * 8);
      }

  pub physical_to_logical_vline_addr : PhysicalVlineAddress → Result LogicalVlineAddress
  physical_to_logical_vline_addr a = do
    let vw_index = a.bit_addr / (word_bytes * 8)
    let ew = a.ordering.ew
    assert (leb ew (word_bytes * 8))
    assert (word_bytes * 8 % ew == 0)
    let elements_in_word = word_bytes * 8 / ew
    let element_in_word_index = a.bit_addr / ew % elements_in_word
    let element_index = vw_index + element_in_word_index * j_in_l params
    ok (record {
      index = a.index;
      ordering = a.ordering;
      bit_addr = element_index * ew + a.bit_addr % ew;
    })

  pub physical_to_k_maddr : PhysicalVlineAddress → Result KmAddr
  physical_to_k_maddr a = do
    let vw_index = a.bit_addr / 8 / word_bytes
    k ← vw_index_to_k_indices params a.ordering.word_order vw_index
    let k_vline_bits = word_bytes * 8 * j_in_k params
    ok (record {
      k_index = k.0;
      ordering = a.ordering;
      bit_addr = a.index * k_vline_bits + k.1 * word_bytes * 8 + a.bit_addr % (word_bytes * 8);
    })

  unfoldable pub logical_to_k_maddr : LogicalVlineAddress → Result KmAddr
  logical_to_k_maddr a = physical_to_k_maddr (logical_to_physical_vline_addr a)

  -- `KMAddr.bit_offset`: the offset may be negative, the sum may not.
  pub k_maddr_bit_offset : KmAddr → ℤ → Result KmAddr
  k_maddr_bit_offset a n_bits = elim (add_ℤ a.bit_addr n_bits) [
    | pos new_bit_addr ↦ ok (record a { bit_addr = new_bit_addr })
    | negsuc _ ↦ err assertion
  ]

  pub k_maddr_j_in_k_index : KmAddr → ℕ
  k_maddr_j_in_k_index a = a.bit_addr / (word_bytes * 8) % j_in_k params

  pub k_maddr_to_physical_vline_addr : KmAddr → Result PhysicalVlineAddress
  k_maddr_to_physical_vline_addr a = do
    let k_vline_bits = j_in_k params * word_bytes * 8
    let index = a.bit_addr / k_vline_bits
    let j_in_k_index = a.bit_addr / (word_bytes * 8) % j_in_k params
    vw_index ← k_indices_to_vw_index params a.ordering.word_order a.k_index j_in_k_index
    ok (record {
      index = index;
      ordering = a.ordering;
      bit_addr = vw_index * word_bytes * 8 + a.bit_addr % (word_bytes * 8);
    })

  unfoldable pub k_maddr_to_logical_vline_addr : KmAddr → Result LogicalVlineAddress
  k_maddr_to_logical_vline_addr a = do
    p ← k_maddr_to_physical_vline_addr a
    physical_to_logical_vline_addr p

  pub addr_to_slot : List (Option ℕ) → KmAddr → Result (Option ℕ)
  addr_to_slot slot_locs a =
      only_slot (matching_slots (a.bit_addr / 8 / cache_line_bytes params) 0 slot_locs)

  pub k_maddr_to_j_saddr : List (Option ℕ) → KmAddr → Result JsAddr
  k_maddr_to_j_saddr slot_locs a = do
    found ← addr_to_slot slot_locs a
    cache_slot ← or_raise found assertion
    let cache_line_offset = a.bit_addr % (cache_line_bytes params * 8)
    let cache_line_bytes_per_jamlet = cache_line_bytes params / j_in_k params
    assert (cache_line_bytes_per_jamlet % word_bytes == 0)
    assert (leb word_bytes cache_line_bytes_per_jamlet)
    let k_vline_bits = word_bytes * j_in_k params * 8
    let vline_index_in_cache_line = cache_line_offset / k_vline_bits
    let offset_in_word = a.bit_addr % (word_bytes * 8)
    ok (record {
      k_index = a.k_index;
      j_in_k_index = k_maddr_j_in_k_index a;
      ordering = a.ordering;
      bit_addr =
          cache_slot * cache_line_bytes_per_jamlet * 8
          + vline_index_in_cache_line * word_bytes * 8
          + offset_in_word;
    })
