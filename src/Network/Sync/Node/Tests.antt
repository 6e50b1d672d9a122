-- ===== src/Network/Sync/Node/Tests.antt =====
-- A synchronization that waits for another one, at one kamlet.
use zamlet.Common.{ℕ, ◌≡◌, refl, true, false, none, some, List, [], ◌∷◌, ok, lookup, insert, erase}
use zamlet.Params.{ZamletParams, default_params}
use zamlet.Network.Sync.{SyncPacket}
use zamlet.Network.Sync.Aggregate.{agg_minu, aggregate_sync_values, aggregate_present, present}
use zamlet.Network.Sync.Grid.{to_n, has_neighbor}
use zamlet.Network.Sync.State.{
  start_state, should_send, all_sends_complete, may_complete, current_state, mark_local,
  mark_received, mark_sent, get_value_for_direction, aggregated_value,
}
use zamlet.Network.Sync.Node.{
  Synchronizer, LocalEvent, is_complete, fire, chained, complete, update_completed, update_all,
  local_event, process_received_packet, chain_fault_sync, send_packet, Call, call_event,
  call_packet, call_chain, call_send, perform, run_calls, no_syncs,
}
use zamlet.Network.Sync.Node.Chains.{Ends, synchronizer-Ends}
use zamlet.Network.Sync.Node.Waiting.{run_calls-WaitsOpen}

abbrev small : ZamletParams
small = record default_params { k_cols = 1; k_rows = 1 }

abbrev event_of : ℕ → LocalEvent
event_of i = record { sync_ident = i; value = none; op = agg_minu; width = 8 }

abbrev packet_of : ℕ → SyncPacket
packet_of i = record { sync_ident = i; value = none }

synchronizer-Ends_example :
    Ends small 0 1 (local_event small 0 1 no_syncs (event_of 3))
    × Ends small 0 1 (process_received_packet small 0 1 no_syncs (packet_of 3) to_n)
    × Ends small 0 1 (chain_fault_sync small 0 1 no_syncs 3 4)
synchronizer-Ends_example = synchronizer-Ends small 0 1 no_syncs (event_of 3) (packet_of 3) to_n 3 4

-- The synchronization 3 completes, and its event for 4 starts that one; 5 waits for 4.
abbrev calls : List Call
calls =
    call_chain 3 4
    ∷ call_event (event_of 3)
    ∷ call_send 3 to_n
    ∷ call_chain 4 5
    ∷ call_packet (packet_of 3) to_n
    ∷ []

after_calls : (s : Synchronizer) × (run_calls small 0 1 no_syncs calls ≡ some (ok s))
unfolding run_calls perform local_event process_received_packet chain_fault_sync send_packet
    update_all update_completed complete chained fire start_state should_send all_sends_complete
    aggregate_sync_values aggregate_present present may_complete current_state mark_local
    mark_received mark_sent get_value_for_direction aggregated_value has_neighbor lookup insert
    erase
after_calls = (_, refl)

still_waits :
    (lookup 4 (after_calls.0).fault_chains ≡ some 5) × (is_complete after_calls.0 3 ≡ true)
unfolding after_calls lookup
still_waits = (refl, refl)

run_calls-WaitsOpen_example : is_complete after_calls.0 4 ≡ false
run_calls-WaitsOpen_example =
    run_calls-WaitsOpen small 0 1 calls after_calls.0 4 5 after_calls.1 (still_waits.0)
