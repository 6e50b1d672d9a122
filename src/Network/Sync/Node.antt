-- ===== src/Network/Sync/Node.antt =====
-- `Synchronizer` of python/zamlet/synchronization.py, at one place: its synchronizations by their
-- identifiers, and the identifiers that wait for another one to complete.
pub mod Chains
pub mod Waiting
mod Tests
use zamlet.Common.{
  ℕ, zero, suc, ◌==◌, if◌then◌else◌, Bool, true, false, ◌&&◌, ◌||◌, not, Option, none, some, List,
  [], ◌∷◌, length, Result, ok, err, assertion, key_error, assert, guard, or_raise, lookup, insert,
  erase, ◌>>=◌, ◌>>◌,
}
use zamlet.Params.{ZamletParams}
use zamlet.Network.Sync.{SyncPacket}
use zamlet.Network.Sync.Aggregate.{SyncAggOp}
use zamlet.Network.Sync.Grid.{SyncDirection}
use zamlet.Network.Sync.State.{
  SyncState, start_state, may_complete, should_send, get_value_for_direction, aggregated_value,
  mark_local, mark_received, mark_sent,
}

-- `fault_chains` is a dictionary from a trigger to its target.
pub record Synchronizer : Type 0 where
  pub sync_states : ℕ → Option SyncState
  pub fault_chains : List (ℕ × ℕ)

-- A call of `local_event`.
pub record LocalEvent : Type 0 where
  pub sync_ident : ℕ
  pub value : Option ℕ
  pub op : SyncAggOp
  pub width : ℕ

abbrev pub put_entry : (ℕ → Option SyncState) → ℕ → Option SyncState → ℕ → Option SyncState
put_entry states i entry j = if j == i then entry else states j

abbrev pub put : Synchronizer → ℕ → SyncState → Synchronizer
put s i state = record s { sync_states = put_entry (s.sync_states) i (some state) }

abbrev pub is_some : {A : Type 0} → Option A → Bool
is_some none = false
is_some (some _) = true

abbrev pub entry_seen : Option SyncState → Bool
entry_seen none = false
entry_seen (some state) = state.local_seen

abbrev pub entry_completed : Option SyncState → Bool
entry_completed none = false
entry_completed (some state) = state.completed

abbrev pub has_sync : Synchronizer → ℕ → Bool
has_sync s i = is_some (s.sync_states i)

abbrev pub has_local_seen : Synchronizer → ℕ → Bool
has_local_seen s i = entry_seen (s.sync_states i)

abbrev pub is_complete : Synchronizer → ℕ → Bool
is_complete s i = entry_completed (s.sync_states i)

-- `del self._sync_states[sync_ident]`
unfoldable pub clear_sync : Synchronizer → ℕ → Result Synchronizer
clear_sync s i =
    guard (has_sync s i) key_error
    >> ok (record s { sync_states = put_entry (s.sync_states) i none })

-- What changes a synchronizer.
pub data Call : Type 0 where
  call_event : LocalEvent → Call
  call_packet : SyncPacket → SyncDirection → Call
  call_chain : ℕ → ℕ → Call
  call_send : ℕ → SyncDirection → Call
  call_clear call_look : ℕ → Call

abbrev pub no_syncs : Synchronizer
no_syncs = record { sync_states = λ _. none; fault_chains = [] }

module _ (params : ZamletParams) (x y : ℕ) where
  unfoldable pub start_sync : Synchronizer → ℕ → Option SyncAggOp → ℕ → Result Synchronizer
  start_sync s i op width =
      assert (not (has_sync s i)) >> ok (put s i (start_state params x y op width))

  abbrev pub entry_value : Option SyncState → Result (Option ℕ)
  entry_value none = ok none
  entry_value (some state) = aggregated_value params x y state

  unfoldable pub get_aggregated_value : Synchronizer → ℕ → Result (Option ℕ)
  get_aggregated_value s i = entry_value (s.sync_states i)

  -- `local_event` but for `_update_completed`.
  unfoldable pub fire : Synchronizer → LocalEvent → Result Synchronizer
  fire s event = do
    state ←
        mark_local params x y (event.value) (event.op) (event.width)
          (s.sync_states (event.sync_ident))
    ok (put s (event.sync_ident) state)

  -- The event for the target of a synchronization that completed.
  unfoldable pub chained :
      Synchronizer → ℕ → SyncState → Option ℕ → Option ℕ → Result (Synchronizer × Option LocalEvent)
  chained s i state min_value none = ok (s, none)
  chained s i state min_value (some target) = do
    op ← or_raise (state.op) assertion
    ok (
      record s { fault_chains = erase i (s.fault_chains) },
      some (record { sync_ident = target; value = min_value; op = op; width = state.width }),
    )

  -- `_update_completed` but for the `local_event` of the chained synchronization.
  unfoldable pub complete :
      Synchronizer → ℕ → Option SyncState → Result (Synchronizer × Option LocalEvent)
  complete s i none = ok (s, none)
  complete s i (some state) =
      if state.completed || not (may_complete params x y state) then ok (s, none) else (do
        min_value ← aggregated_value params x y state
        chained (put s i (record state { completed = true })) i state min_value
            (lookup i (s.fault_chains)))

  -- What follows a local event.
  abbrev pub then_update :
      (Synchronizer → ℕ → Option (Result Synchronizer))
      → ℕ
      → Result Synchronizer
      → Option (Result Synchronizer)
  then_update again i (err e) = some (err e)
  then_update again i (ok s) = again s i

  abbrev pub then_fire :
      (Synchronizer → ℕ → Option (Result Synchronizer))
      → Result (Synchronizer × Option LocalEvent)
      → Option (Result Synchronizer)
  then_fire again (err e) = some (err e)
  then_fire again (ok (s, none)) = some (ok s)
  then_fire again (ok (s, some event)) = then_update again (event.sync_ident) (fire s event)

  -- `_update_completed`, with the number of calls that it may nest; `none` where that is too small.
  unfoldable pub update_completed : ℕ → Synchronizer → ℕ → Option (Result Synchronizer)
  update_completed zero s i = none
  update_completed (suc fuel) s i =
      then_fire (λ t j. update_completed fuel t j) (complete s i (s.sync_states i))

  -- A chain ends at the latest where each of the waiting synchronizations had its turn.
  unfoldable pub update_all : Synchronizer → ℕ → Option (Result Synchronizer)
  update_all s i = update_completed (suc (length (s.fault_chains))) s i

  unfoldable pub local_event : Synchronizer → LocalEvent → Option (Result Synchronizer)
  local_event s event = then_update update_all (event.sync_ident) (fire s event)

  unfoldable pub process_received_packet :
      Synchronizer → SyncPacket → SyncDirection → Option (Result Synchronizer)
  process_received_packet s packet from_direction =
      let i = packet.sync_ident in
      then_update update_all i (do
        state ← mark_received params x y (packet.value) from_direction (s.sync_states i)
        ok (put s i state))

  -- The event that `chain_fault_sync` fires at once.
  abbrev pub trigger_event : SyncState → ℕ → Result LocalEvent
  trigger_event state target = do
    min_value ← aggregated_value params x y state
    op ← or_raise (state.op) assertion
    ok (record { sync_ident = target; value = min_value; op = op; width = state.width })

  abbrev pub add_chain : Synchronizer → ℕ → ℕ → Synchronizer
  add_chain s trigger target = record s { fault_chains = insert trigger target (s.fault_chains) }

  abbrev pub then_event : Synchronizer → Result LocalEvent → Option (Result Synchronizer)
  then_event s (err e) = some (err e)
  then_event s (ok event) = local_event s event

  abbrev pub chain_from : Synchronizer → ℕ → ℕ → Option SyncState → Option (Result Synchronizer)
  chain_from s trigger target none = some (ok (add_chain s trigger target))
  chain_from s trigger target (some state) =
      if state.completed
      then then_event s (trigger_event state target)
      else some (ok (add_chain s trigger target))

  unfoldable pub chain_fault_sync : Synchronizer → ℕ → ℕ → Option (Result Synchronizer)
  chain_fault_sync s trigger target = chain_from s trigger target (s.sync_states trigger)

  -- What `run` sends in a direction: the packet, where it should.
  abbrev pub send_from :
      Synchronizer
      → ℕ
      → SyncDirection
      → Option SyncState
      → Result (Synchronizer × Option SyncPacket)
  send_from s i d none = ok (s, none)
  send_from s i d (some state) =
      if should_send params x y state d
      then (do
        value ← get_value_for_direction params x y state d
        ok (put s i (mark_sent d state), some (record { sync_ident = i; value = value })))
      else ok (s, none)

  abbrev pub node_after : Result (Synchronizer × Option SyncPacket) → Result Synchronizer
  node_after (err e) = err e
  node_after (ok (s, _)) = ok s

  -- A send without the words: the assertions of `to_words` are in its own model, and the wait for a
  -- packet that is still on its way out only takes sends away.
  unfoldable pub send_packet :
      Synchronizer → ℕ → SyncDirection → Result (Synchronizer × Option SyncPacket)
  send_packet s i d = send_from s i d (s.sync_states i)

  -- `call_look` is the check for completion in `run`.
  unfoldable pub perform : Synchronizer → Call → Option (Result Synchronizer)
  perform s (call_event e) = local_event s e
  perform s (call_packet p d) = process_received_packet s p d
  perform s (call_chain trigger target) = chain_fault_sync s trigger target
  perform s (call_send i d) = some (node_after (send_packet s i d))
  perform s (call_clear i) = some (clear_sync s i)
  perform s (call_look i) = update_all s i

  abbrev pub then_calls :
      (Synchronizer → Option (Result Synchronizer))
      → Option (Result Synchronizer)
      → Option (Result Synchronizer)
  then_calls rest none = none
  then_calls rest (some (err e)) = some (err e)
  then_calls rest (some (ok t)) = rest t

  unfoldable pub run_calls : Synchronizer → List Call → Option (Result Synchronizer)
  run_calls s [] = some (ok s)
  run_calls s (c ∷ calls) = then_calls (λ t. run_calls t calls) (perform s c)
