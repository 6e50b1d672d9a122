-- ===== src/Network/Sync/Protocol/Tests.antt =====
-- A synchronization of one kamlet and the lamlet.
use zamlet.Common.{ℕ, zero, suc, subst, arith, ◌≡◌, refl, true, false, Option, none, some, ok}
use zamlet.Params.{ZamletParams, default_params}
use zamlet.Network.Sync.Aggregate.{
  agg_minu, aggregate_sync_values, aggregate_present, present, aggregate, min_by,
}
use zamlet.Network.Sync.Grid.{
  SyncDirection, to_n, to_s, to_e, to_w, to_ne, to_nw, to_se, to_sw, is_place, has_neighbor,
}
use zamlet.Network.Sync.State.{
  SyncState, start_state, should_send, all_sends_complete, may_complete, current_state, mark_local,
  mark_received, mark_sent, mark_completed, get_value_for_direction,
}
use zamlet.Network.Sync.Protocol.{
  Network, put_state, put_link, local_seen_at, quiet, Step, see, send, receive, Reach, here, next,
}
use zamlet.Network.Sync.Protocol.View.{completed_at}
use zamlet.Network.Sync.Protocol.Reachable.{
  completed-all_seen, link-mark_received, quiescent-mark_completed,
}

abbrev small : ZamletParams
small = record default_params { k_cols = 1; k_rows = 1 }

abbrev to_kamlet : Option ℕ
to_kamlet = some 7

abbrev to_lamlet : Option ℕ
to_lamlet = some 5

abbrev fresh : ℕ → SyncState
fresh y = start_state small 0 y (some agg_minu) 8

abbrev saw : ℕ → ℕ → SyncState
saw y v = record (fresh y) { local_seen = true; local_value = some v }

abbrev net1 : Network
net1 = put_state quiet 0 0 (mark_completed small 0 0 (saw 0 7))

lamlet_sees : Step small quiet net1
unfolding local_seen_at mark_local current_state start_state
lamlet_sees = see 0 0 (some 7) agg_minu 8 (saw 0 7) refl refl refl

abbrev net2 : Network
net2 = put_state net1 0 1 (mark_completed small 0 1 (saw 1 5))

kamlet_sees : Step small net1 net2
unfolding local_seen_at mark_local current_state start_state
kamlet_sees = see 0 1 (some 5) agg_minu 8 (saw 1 5) refl refl refl

abbrev lamlet_sent : SyncState
lamlet_sent = mark_sent to_s (mark_completed small 0 0 (saw 0 7))

abbrev net3 : Network
net3 = put_link (put_state net2 0 0 lamlet_sent) 0 0 to_s (some to_kamlet)

lamlet_sends : Step small net2 net3
unfolding mark_completed may_complete all_sends_complete should_send start_state
    get_value_for_direction has_neighbor aggregate_sync_values aggregate_present present aggregate
    min_by
lamlet_sends = send 0 0 to_s (mark_completed small 0 0 (saw 0 7)) to_kamlet refl refl refl refl

abbrev kamlet_sent : SyncState
kamlet_sent = mark_sent to_n (mark_completed small 0 1 (saw 1 5))

abbrev net4 : Network
net4 = put_link (put_state net3 0 1 kamlet_sent) 0 1 to_n (some to_lamlet)

kamlet_sends : Step small net3 net4
unfolding mark_completed may_complete all_sends_complete should_send start_state
    get_value_for_direction has_neighbor aggregate_sync_values aggregate_present present aggregate
    min_by
kamlet_sends = send 0 1 to_n (mark_completed small 0 1 (saw 1 5)) to_lamlet refl refl refl refl

reached : Reach small net4
reached =
    next net3 net4
      (next net2 net3 (next net1 net2 (next quiet net1 here lamlet_sees) kamlet_sees) lamlet_sends)
      kamlet_sends

link-mark_received_example :
    (state : SyncState) × (mark_received small 0 1 to_kamlet to_n (net4.entries 0 1) ≡ ok state)
link-mark_received_example = link-mark_received small net4 0 0 to_s 0 1 to_kamlet reached refl refl

kamlet_gets :
    (state : SyncState) × (mark_received small 0 1 to_kamlet to_n (net4.entries 0 1) ≡ ok state)
unfolding mark_received mark_sent mark_completed may_complete all_sends_complete start_state
    has_neighbor current_state
kamlet_gets = (_, refl)

abbrev net5 : Network
net5 = put_link (put_state net4 0 1 (mark_completed small 0 1 kamlet_gets.0)) 0 0 to_s none

kamlet_receives : Step small net4 net5
kamlet_receives = receive 0 0 to_s 0 1 to_kamlet kamlet_gets.0 refl refl kamlet_gets.1

reached5 : Reach small net5
reached5 = next net4 net5 reached kamlet_receives

kamlet_is_done : completed_at net5 0 1 ≡ true
unfolding kamlet_gets completed_at mark_received mark_sent mark_completed may_complete
    all_sends_complete start_state has_neighbor current_state
kamlet_is_done = refl

completed-all_seen_example : local_seen_at net5 0 0 ≡ true
completed-all_seen_example = completed-all_seen small net5 0 1 0 0 reached5 refl refl kamlet_is_done

lamlet_gets :
    (state : SyncState) × (mark_received small 0 0 to_lamlet to_s (net5.entries 0 0) ≡ ok state)
unfolding mark_received mark_sent mark_completed may_complete all_sends_complete start_state
    has_neighbor current_state
lamlet_gets = (_, refl)

abbrev net6 : Network
net6 = put_link (put_state net5 0 0 (mark_completed small 0 0 lamlet_gets.0)) 0 1 to_n none

reached6 : Reach small net6
reached6 =
    next net5 net6 reached5 (receive 0 1 to_n 0 0 to_lamlet lamlet_gets.0 refl refl lamlet_gets.1)

some_eq : {a b : SyncState} → some a ≡ some b → a ≡ b
some_eq e = cc

all_see : (x y : ℕ) → is_place small x y ≡ true → local_seen_at net6 x y ≡ true
unfolding local_seen_at lamlet_gets kamlet_gets mark_received mark_sent mark_completed may_complete
    all_sends_complete start_state has_neighbor current_state should_send
all_see zero zero place = refl
all_see zero (suc zero) place = refl
all_see zero (suc (suc y)) place = ground arith
all_see (suc x) y place = ground arith

nothing_flies : (x y : ℕ) (d : SyncDirection) → net6.links x y d ≡ none
unfolding local_seen_at lamlet_gets kamlet_gets mark_received mark_sent mark_completed may_complete
    all_sends_complete start_state has_neighbor current_state should_send
nothing_flies zero zero to_n = refl
nothing_flies zero zero to_s = refl
nothing_flies zero zero to_e = refl
nothing_flies zero zero to_w = refl
nothing_flies zero zero to_ne = refl
nothing_flies zero zero to_nw = refl
nothing_flies zero zero to_se = refl
nothing_flies zero zero to_sw = refl
nothing_flies zero (suc zero) to_n = refl
nothing_flies zero (suc zero) to_s = refl
nothing_flies zero (suc zero) to_e = refl
nothing_flies zero (suc zero) to_w = refl
nothing_flies zero (suc zero) to_ne = refl
nothing_flies zero (suc zero) to_nw = refl
nothing_flies zero (suc zero) to_se = refl
nothing_flies zero (suc zero) to_sw = refl
nothing_flies zero (suc (suc y)) d = ground arith
nothing_flies (suc x) y d = ground arith

lamlet_waits :
    (d : SyncDirection) → should_send small 0 0 (mark_completed small 0 0 lamlet_gets.0) d ≡ false
unfolding local_seen_at lamlet_gets kamlet_gets mark_received mark_sent mark_completed may_complete
    all_sends_complete start_state has_neighbor current_state should_send
lamlet_waits to_n = refl
lamlet_waits to_s = refl
lamlet_waits to_e = refl
lamlet_waits to_w = refl
lamlet_waits to_ne = refl
lamlet_waits to_nw = refl
lamlet_waits to_se = refl
lamlet_waits to_sw = refl

kamlet_waits :
    (d : SyncDirection) → should_send small 0 1 (mark_completed small 0 1 kamlet_gets.0) d ≡ false
unfolding local_seen_at lamlet_gets kamlet_gets mark_received mark_sent mark_completed may_complete
    all_sends_complete start_state has_neighbor current_state should_send
kamlet_waits to_n = refl
kamlet_waits to_s = refl
kamlet_waits to_e = refl
kamlet_waits to_w = refl
kamlet_waits to_ne = refl
kamlet_waits to_nw = refl
kamlet_waits to_se = refl
kamlet_waits to_sw = refl

nothing_to_send :
    (x y : ℕ) (d : SyncDirection) (state : SyncState)
    → is_place small x y ≡ true
    → net6.entries x y ≡ some state
    → should_send small x y state d ≡ false
nothing_to_send zero zero d state place e =
    subst (λ s. should_send small 0 0 s d ≡ false) (some_eq e) (lamlet_waits d)
nothing_to_send zero (suc zero) d state place e =
    subst (λ s. should_send small 0 1 s d ≡ false) (some_eq e) (kamlet_waits d)
nothing_to_send zero (suc (suc y)) d state place e = ground arith
nothing_to_send (suc x) y d state place e = ground arith

quiescent-mark_completed_example :
    (state : SyncState) × (net6.entries 0 1 ≡ some state)
    × ((mark_completed small 0 1 state).completed ≡ true)
quiescent-mark_completed_example =
    quiescent-mark_completed small net6 reached6 all_see nothing_flies nothing_to_send 0 1 refl
