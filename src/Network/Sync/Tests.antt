-- ===== src/Network/Sync/Tests.antt =====
-- Values of the synchronization bus of python/zamlet/synchronization.py.
use zamlet.Common.{ℕ, ◌≡◌, ◌≤◌, true, inl, refl, arith, Option, none, some, List, [], ◌∷◌, ok}
use zamlet.Params.{default_params}
use zamlet.Addresses.Tlb.{read_fault}
use zamlet.Network.Sync.{
  pack_min_pair, VectorFaultInfo, pack_fault_info, SyncPacket, to_words, from_words, combined_bits,
  n_value_bytes,
}
use zamlet.Network.Sync.Bus.{bus_values, receive_values, send_packets, receive_values-send_packets}
use zamlet.Network.Sync.Packing.{from_words-to_words}
use zamlet.Network.Sync.Aggregate.{
  agg_min, agg_max, agg_minu, agg_maxu, agg_min_fault_info, aggregate_sync_values,
}
use zamlet.Network.Sync.Aggregate.Orders.{twos_complement, Bound, aggregate_sync_values_order}
use zamlet.Network.Sync.Aggregate.Faults.{Found, aggregate_sync_values_fault}
use zamlet.Common.Int.{le_ℤ}
use zamlet.Utils.{uint_to_list_of_uints, words_loop, log2ceil, halvings}

pair_packed : pack_min_pair (some 300) 5 ≡ ok 2348
unfolding pack_min_pair
pair_packed = refl

abbrev fault : VectorFaultInfo
fault = record { element_index = 6; fault_type = read_fault; fault_addr = 4660 }

fault_packed : (value : ℕ) × (pack_fault_info default_params fault ≡ ok value)
unfolding pack_fault_info
fault_packed = (_, refl)

abbrev packet : SyncPacket
packet = record { sync_ident = 37; value = some 1500 }

packet_words : (words : List ℕ) × (to_words 10 10 (some 2) packet ≡ ok words)
unfolding to_words combined_bits n_value_bytes uint_to_list_of_uints words_loop log2ceil halvings
packet_words = (_, refl)

from_words-to_words_example : from_words packet_words.0 10 10 ≡ ok packet
from_words-to_words_example =
    from_words-to_words 10 10 (some 2) packet packet_words.0 (omega arith) (omega arith)
      (omega arith) (omega arith) packet_words.1

abbrev contributions : List (Option ℕ)
contributions = some 9 ∷ none ∷ some 4 ∷ some 12 ∷ []

aggregate_sync_values_order_example :
    ((m : ℕ) × (aggregate_sync_values default_params agg_minu contributions 4 ≡ ok (some m))
      × Bound (λ a b. a ≤ b) contributions m)
    × ((m : ℕ) × (aggregate_sync_values default_params agg_maxu contributions 4 ≡ ok (some m))
        × Bound (λ a b. b ≤ a) contributions m)
    × ((m : ℕ) × (aggregate_sync_values default_params agg_min contributions 4 ≡ ok (some m))
        × Bound (λ a b. le_ℤ (twos_complement 4 a) (twos_complement 4 b) ≡ true) contributions m)
    × ((m : ℕ) × (aggregate_sync_values default_params agg_max contributions 4 ≡ ok (some m))
        × Bound (λ a b. le_ℤ (twos_complement 4 b) (twos_complement 4 a) ≡ true) contributions m)
aggregate_sync_values_order_example =
    aggregate_sync_values_order default_params contributions 4 9 (omega arith) (inl refl)

abbrev early_fault : VectorFaultInfo
early_fault = record { element_index = 2; fault_type = read_fault; fault_addr = 9320 }

early_packed : (value : ℕ) × (pack_fault_info default_params early_fault ≡ ok value)
unfolding pack_fault_info
early_packed = (_, refl)

abbrev faults : List (Option VectorFaultInfo)
faults = some fault ∷ none ∷ some early_fault ∷ []

abbrev packed_faults : List (Option ℕ)
packed_faults = some fault_packed.0 ∷ none ∷ some early_packed.0 ∷ []

aggregate_sync_values_fault_example :
    (m : ℕ) × (first : VectorFaultInfo) × (aggregate_sync_values default_params agg_min_fault_info
        packed_faults 86
      ≡ ok (some m))
    × (pack_fault_info default_params first ≡ ok m)
    × Found first faults
    × ((g : VectorFaultInfo) → Found g faults → first.element_index ≤ g.element_index)
aggregate_sync_values_fault_example =
    aggregate_sync_values_fault default_params faults packed_faults 86 fault
      (fault_packed.1, (refl, (early_packed.1, tt))) (inl refl)

-- Two packets on the bus, one without a value.
abbrev outgoing : List (Option ℕ × SyncPacket)
outgoing = (some 2, packet) ∷ (none, record { sync_ident = 9; value = none }) ∷ []

outgoing_values : (bus_vals : List ℕ) × (send_packets 10 10 outgoing ≡ ok bus_vals)
unfolding send_packets bus_values to_words combined_bits n_value_bytes uint_to_list_of_uints
    words_loop log2ceil halvings
outgoing_values = (_, refl)

receive_values-send_packets_example :
    receive_values 10 10 [] outgoing_values.0
    ≡ ok (packet ∷ record { sync_ident = 9; value = none } ∷ [], [])
receive_values-send_packets_example =
    receive_values-send_packets 10 10 outgoing outgoing_values.0 (omega arith) (omega arith)
      (omega arith) (omega arith, (omega arith, tt)) outgoing_values.1
