-- ===== src/Network/Sync/Protocol.antt =====
-- One synchronization over the network of python/zamlet/synchronization.py: the states of all
-- places, and the packets between them. A link holds a packet from its first word to its last; a
-- step is what `run`, `local_event` or `_process_received_packet` does to one state, in any order.
pub mod View
pub mod Safety
pub mod Same
pub mod Sending
pub mod Receiving
pub mod Touch
pub mod Steps
pub mod Delivery
pub mod Quiescence
pub mod Reachable
mod Tests
use zamlet.Common.{
  ℕ, ◌==◌, if◌then◌else◌, Bool, true, false, ◌&&◌, ◌≡◌, Option, none, some, Result, ok,
}
use zamlet.Params.{ZamletParams}
use zamlet.Network.Sync.Aggregate.{SyncAggOp}
use zamlet.Network.Sync.Grid.{SyncDirection, shift, is_place}
use zamlet.Network.Sync.Grid.Regions.{opposite}
use zamlet.Network.Sync.State.{
  SyncState, assign, should_send, get_value_for_direction, mark_local, mark_received, mark_sent,
  mark_completed,
}

-- `links x y d` is the packet from (x, y) in direction `d`, by its value.
pub record Network : Type 0 where
  pub entries : ℕ → ℕ → Option SyncState
  pub links : ℕ → ℕ → SyncDirection → Option (Option ℕ)

abbrev pub same_place : ℕ → ℕ → ℕ → ℕ → Bool
same_place x y cx cy = cx == x && cy == y

abbrev pub put_at : {A : Type 0} → (ℕ → ℕ → A) → ℕ → ℕ → A → ℕ → ℕ → A
put_at f x y v cx cy = if same_place x y cx cy then v else f cx cy

unfoldable pub local_seen_at : Network → ℕ → ℕ → Bool
local_seen_at net x y = elim (net.entries x y) [ none ↦ false | some state ↦ state.local_seen ]

abbrev pub put_state : Network → ℕ → ℕ → SyncState → Network
put_state net x y state = record net { entries = put_at (net.entries) x y (some state) }

abbrev pub put_link : Network → ℕ → ℕ → SyncDirection → Option (Option ℕ) → Network
put_link net x y d packet = record net {
  links = put_at (net.links) x y (assign (net.links x y) d packet);
}

abbrev pub quiet : Network
quiet = record { entries = λ _ _. none; links = λ _ _ _. none }

module _ (params : ZamletParams) where
  -- A place sees the event once.
  pub data Step (net : Network) : Network → Type 0 where
    see :
        (x y : ℕ) (value : Option ℕ) (op : SyncAggOp) (width : ℕ) (state : SyncState)
        → is_place params x y ≡ true
        → local_seen_at net x y ≡ false
        → mark_local params x y value op width (net.entries x y) ≡ ok state
        → Step net (put_state net x y (mark_completed params x y state))
    send :
        (x y : ℕ) (d : SyncDirection) (state : SyncState) (value : Option ℕ)
        → is_place params x y ≡ true
        → net.entries x y ≡ some state
        → should_send params x y state d ≡ true
        → get_value_for_direction params x y state d ≡ ok value
        → Step net (put_link (put_state net x y (mark_sent d state)) x y d (some value))
    receive :
        (x y : ℕ) (d : SyncDirection) (qx qy : ℕ) (value : Option ℕ) (state : SyncState)
        → net.links x y d ≡ some value
        → shift d x y ≡ some (qx, qy)
        → mark_received params qx qy value (opposite d) (net.entries qx qy) ≡ ok state
        → Step net (put_link (put_state net qx qy (mark_completed params qx qy state)) x y d none)
    check :
        (x y : ℕ) (state : SyncState)
        → is_place params x y ≡ true
        → net.entries x y ≡ some state
        → Step net (put_state net x y (mark_completed params x y state))

  pub data Reach : Network → Type 0 where
    here : Reach quiet
    next : (net net' : Network) → Reach net → Step net net' → Reach net'
