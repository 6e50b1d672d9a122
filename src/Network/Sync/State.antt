-- ===== src/Network/Sync/State.antt =====
-- `SyncState` of python/zamlet/synchronization.py: what one place knows of one synchronization.
use zamlet.Common.{
  ℕ, if◌then◌else◌, Bool, true, false, ◌&&◌, not, ◌==◌, Option, none, some, List, [], ◌∷◌, map,
  Result, ok, err, assertion, assert, ◌>>=◌, ◌>>◌,
}
use zamlet.Params.{ZamletParams}
use zamlet.Network.Sync.Aggregate.{SyncAggOp, op_value, aggregate_sync_values}
use zamlet.Network.Sync.Grid.{
  SyncDirection, to_n, to_s, to_e, to_w, to_ne, to_nw, to_se, to_sw, all_directions, same_direction,
  has_neighbor, get_send_requirements,
}

-- The three dictionaries of flags, and the three of values, have the eight directions as their
-- keys: a quadrant, column or row is named by its direction. A set of directions is its test.
pub record SyncState : Type 0 where
  pub op : Option SyncAggOp
  pub width : ℕ
  pub local_seen : Bool
  pub local_value : Option ℕ
  pub synced : SyncDirection → Bool
  pub values : SyncDirection → Option ℕ
  pub sent_directions : SyncDirection → Bool
  pub completed : Bool

-- `f[d] = v`
abbrev pub assign : {A : Type 0} → (SyncDirection → A) → SyncDirection → A → SyncDirection → A
assign f d v e = if same_direction d e then v else f e

-- `all(p(d) for d in ds)`
abbrev pub all_of : (SyncDirection → Bool) → List SyncDirection → Bool
all_of p [] = true
all_of p (d ∷ ds) = p d && all_of p ds

abbrev pub same_op : Option SyncAggOp → SyncAggOp → Bool
same_op none b = false
same_op (some a) b = op_value a == op_value b

abbrev pub set_op : SyncAggOp → ℕ → SyncState → Result SyncState
set_op op width state = elim state.op [
  | none ↦ ok (record state { op = some op; width = width })
  | some a ↦ assert (same_op (some a) op && state.width == width) >> ok state
]

-- The sending of a packet in `run`.
unfoldable pub mark_sent : SyncDirection → SyncState → SyncState
mark_sent d state = record state { sent_directions = assign state.sent_directions d true }

module _ (params : ZamletParams) (x y : ℕ) where
  -- The state of `start_sync`: regions that do not exist are synchronized.
  unfoldable pub start_state : Option SyncAggOp → ℕ → SyncState
  start_state op width = record {
    op = op;
    width = width;
    local_seen = false;
    local_value = none;
    synced = λ d. not (has_neighbor params x y d);
    values = λ _. none;
    sent_directions = λ _. false;
    completed = false;
  }

  abbrev pub sent_or_absent : SyncState → SyncDirection → Bool
  sent_or_absent state d = not (has_neighbor params x y d && not (state.sent_directions d))

  unfoldable pub all_sends_complete : SyncState → Bool
  all_sends_complete state = all_of (sent_or_absent state) all_directions

  -- `_is_complete`
  unfoldable pub may_complete : SyncState → Bool
  may_complete state =
      state.local_seen && (all_of state.synced all_directions && all_sends_complete state)

  unfoldable pub should_send : SyncState → SyncDirection → Bool
  should_send state d =
      has_neighbor params x y d
      && (not (state.sent_directions d)
          && (state.local_seen && all_of state.synced (get_send_requirements x y d)))

  abbrev pub with_op : Option SyncAggOp → List (Option ℕ) → ℕ → Result (Option ℕ)
  with_op none values width = err assertion
  with_op (some op) values width = aggregate_sync_values params op values width

  unfoldable pub get_value_for_direction : SyncState → SyncDirection → Result (Option ℕ)
  get_value_for_direction state d =
      with_op state.op (state.local_value ∷ map state.values (get_send_requirements x y d))
        state.width

  -- `get_aggregated_value`, of a state: quadrants, columns, rows.
  unfoldable pub aggregated_value : SyncState → Result (Option ℕ)
  aggregated_value state =
      with_op state.op
        (state.local_value
          ∷ map state.values (to_ne ∷ to_nw ∷ to_se ∷ to_sw ∷ to_n ∷ to_s ∷ to_e ∷ to_w ∷ []))
        state.width

  -- The state that a call for the identifier starts from: none, or that of a synchronization that
  -- completed, makes way for a new one.
  unfoldable pub current_state : Option SyncAggOp → ℕ → Option SyncState → SyncState
  current_state op width none = start_state op width
  current_state op width (some state) = if state.completed then start_state op width else state

  -- `local_event` but for `_update_completed`.
  unfoldable pub mark_local : Option ℕ → SyncAggOp → ℕ → Option SyncState → Result SyncState
  mark_local value op width entry = do
    state ← set_op op width (current_state (some op) width entry)
    ok (record state { local_seen = true; local_value = value })

  -- `_process_received_packet` but for `_update_completed`; a packet from a neighbour finds the
  -- width 32 of `start_sync` where there is no state.
  unfoldable pub mark_received : Option ℕ → SyncDirection → Option SyncState → Result SyncState
  mark_received value from_direction entry = do
    let state = current_state none 32 entry
    assert (not (state.synced from_direction))
    ok (record state {
      synced = assign state.synced from_direction true;
      values = assign state.values from_direction value;
    })

  -- `_update_completed` but for the chained synchronization.
  unfoldable pub mark_completed : SyncState → SyncState
  mark_completed state = if may_complete state then record state { completed = true } else state
