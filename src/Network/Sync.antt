-- ===== src/Network/Sync.antt =====
-- The values and packets of the synchronization bus: python/zamlet/synchronization.py.
pub mod Packing
pub mod Bus
pub mod Grid
pub mod State
pub mod Protocol
pub mod Node
pub mod Aggregate
mod Tests
use zamlet.Common.{
  ℕ, zero, suc, ◌+◌, ◌-◌, ◌*◌, ◌/◌, ◌%◌, ◌^◌, bit_and, bit_or, ltb, leb, ◌==◌, if◌then◌else◌, Bool,
  true, false, ◌&&◌, not, Option, none, some, List, [], ◌∷◌, length, Result, ok, err, assertion,
  value_error, assert, ◌>>=◌, ◌>>◌,
}
use zamlet.Common.Int.{ℤ, pos, negsuc, sub_ℕ}
use zamlet.Params.{ZamletParams}
use zamlet.Utils.{log2ceil, list_of_uints_to_uint, uint_to_list_of_uints}
use zamlet.Addresses.Tlb.{TlbFaultType, no_fault, page_fault, read_fault, write_fault, not_waited}

abbrev min_pair_low_width : ℕ
min_pair_low_width = 9

abbrev min_pair_high_width : ℕ
min_pair_high_width = 3

abbrev low_mask : ℕ
low_mask = 2 ^ min_pair_low_width - 1

abbrev high_mask : ℕ
high_mask = 2 ^ min_pair_high_width - 1

-- `None` is 0.
abbrev low_field : Option ℕ → Result ℕ
low_field none = ok 0
low_field (some low) = assert (not (low == 0)) >> ok low

pub pack_min_pair : Option ℕ → ℕ → Result ℕ
pack_min_pair low high = do
  low_val ← low_field low
  assert (leb 2 high && leb high (high_mask + 1))
  assert (leb low_val low_mask)
  ok (bit_or low_val ((high - 1) * 2 ^ min_pair_low_width))

pub unpack_min_pair : ℕ → Option ℕ × ℕ
unpack_min_pair value =
    let low = bit_and value low_mask in
    let high_stored = bit_and (value / 2 ^ min_pair_low_width) high_mask in
    ((if low == 0 then none else some low), high_stored + 1)

-- `TLBFaultType.value`, and the type of a value; another value raises.
abbrev pub fault_type_value : TlbFaultType → ℕ
fault_type_value no_fault = 0
fault_type_value page_fault = 1
fault_type_value read_fault = 2
fault_type_value write_fault = 3
fault_type_value not_waited = 4

abbrev pub fault_type_of : ℕ → Result TlbFaultType
fault_type_of value =
    if value == 0
    then ok no_fault
    else if value == 1
    then ok page_fault
    else if value == 2
    then ok read_fault
    else if value == 3
    then ok write_fault
    else if value == 4
    then ok not_waited
    else err value_error

pub record VectorFaultInfo : Type 0 where
  pub element_index : ℕ
  pub fault_type : TlbFaultType
  pub fault_addr : ℕ

module _ (params : ZamletParams) where
  open params use {word_bytes, element_index_width}

  pub fault_info_width : ℕ
  fault_info_width = word_bytes * 8 + 2 + element_index_width

  pub pack_fault_info : VectorFaultInfo → Result ℕ
  pack_fault_info info = do
    let addr_bits = word_bytes * 8
    assert (ltb info.element_index (2 ^ element_index_width))
    assert (ltb (fault_type_value info.fault_type) (2 ^ 2))
    assert (ltb info.fault_addr (2 ^ addr_bits))
    ok (
        bit_or (bit_or info.fault_addr (fault_type_value info.fault_type * 2 ^ addr_bits))
          (info.element_index * 2 ^ (addr_bits + 2)))

  pub unpack_fault_info : ℕ → Result VectorFaultInfo
  unpack_fault_info value = do
    let addr_bits = word_bytes * 8
    fault_type ← fault_type_of (bit_and (value / 2 ^ addr_bits) 3)
    ok (record {
      element_index = value / 2 ^ (addr_bits + 2);
      fault_type = fault_type;
      fault_addr = bit_and value (2 ^ addr_bits - 1);
    })

-- A packet, and its value where it has one.
pub record SyncPacket : Type 0 where
  pub sync_ident : ℕ
  pub value : Option ℕ

-- The bytes of a value in the packet: those asked for, or as many as it needs.
pub n_value_bytes : ℕ → Option ℕ → Result ℕ
n_value_bytes value (some bytes) = do
  assert (leb 1 bytes)
  assert (leb (log2ceil value) (bytes * 8))
  ok bytes
n_value_bytes value none = ok (if value == 0 then 1 else (log2ceil value + 7) / 8)

-- The bits of the packet and their number.
pub combined_bits : ℕ → Option ℕ → SyncPacket → Result (ℕ × ℕ)
combined_bits ident_width value_bytes packet = elim packet.value [
  | none ↦ ok (packet.sync_ident, ident_width)
  | some v ↦ n_value_bytes v value_bytes >>= λ bytes.
      ok (bit_or packet.sync_ident (v * 2 ^ ident_width), ident_width + bytes * 8)
]

pub to_words : ℕ → ℕ → Option ℕ → SyncPacket → Result (List ℕ)
to_words data_width sync_ident_width value_bytes packet = do
  combined ← combined_bits sync_ident_width value_bytes packet
  uint_to_list_of_uints combined.0 data_width ((combined.1 + data_width - 1) / data_width)

pub from_words : List ℕ → ℕ → ℕ → Result SyncPacket
from_words words data_width sync_ident_width = do
  combined ← list_of_uints_to_uint words data_width
  ok (record {
    sync_ident = bit_and combined (2 ^ sync_ident_width - 1);
    value = if ltb 1 (length words) then some (combined / 2 ^ sync_ident_width) else none;
  })
