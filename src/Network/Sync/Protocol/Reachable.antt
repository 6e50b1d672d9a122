-- ===== src/Network/Sync/Protocol/Reachable.antt =====
-- What is true of every reachable state of the synchronization network.
use zamlet.Common.{ℕ, Bool, true, false, ◌&&◌, not, ◌≡◌, refl, sym, ◌∙◌, ap, Option, none, some, ok}
use mathlib.Core.Path.{fun_ext}
use zamlet.Network.Sync.Protocol.Delivery.{Delivers, Marks-Delivers, Sends-Delivers, Gets-Delivers}
use zamlet.Network.Sync.Protocol.Quiescence.{synced_everywhere}
use zamlet.Params.{ZamletParams}
use zamlet.Network.Sync.Grid.{
  SyncDirection, to_n, shift, is_place, has_neighbor, get_send_requirements,
}
use zamlet.Network.Sync.Grid.Regions.{opposite, covers_all}
use zamlet.Network.Sync.State.{SyncState, all_of, should_send, mark_received, mark_completed}
use zamlet.Network.Sync.Protocol.{
  Network, local_seen_at, quiet, Step, see, send, receive, check, Reach, here, next,
}
use zamlet.Network.Sync.Protocol.View.{synced_at, completed_at, sent_at, link_at, mark_received-ok}
use zamlet.Network.Sync.Protocol.Safety.{Inv, Marks-Inv}
use zamlet.Network.Sync.Protocol.Sending.{Sends-Inv}
use zamlet.Network.Sync.Protocol.Receiving.{Gets-Inv}
use zamlet.Network.Sync.Protocol.Same.{same_place-eq}
use zamlet.Network.Sync.Protocol.Touch.{all-all_of, mark_completed-completed, view_of, quiet-Inv}
use zamlet.Network.Sync.Protocol.Steps.{
  shown, see-Marks, check-Marks, send-Sends, receive-Gets, open_receiver,
}

in_flight :
    (net : Network) (x y : ℕ) (d : SyncDirection) (value : Option ℕ)
    → net.links x y d ≡ some value
    → link_at net x y d ≡ true
unfolding link_at
in_flight net x y d value e =
    ap (λ (packet : Option (Option ℕ)). elim packet [ none ↦ false | some _ ↦ true ]) e

module _ (params : ZamletParams) where
  Step-Inv :
      (net net' : Network)
      → Step params net net'
      → Inv params (view_of params net)
      → Inv params (view_of params net')
  Step-Inv net net' (see x y value op width state place unseen e) inv =
      Marks-Inv params _ _ (see-Marks params net x y value op width state unseen e inv) inv
  Step-Inv net net' (send x y d state value place e may v) inv =
      Sends-Inv params _ _ x y d (send-Sends params net x y d state value place e may) inv
  Step-Inv net net' (receive x y d qx qy value state l e got) inv =
      Gets-Inv params _ _ x y d qx qy
        (receive-Gets params net x y d qx qy value state inv (in_flight net x y d value l) e got)
        inv
  Step-Inv net net' (check x y state place e) inv =
      Marks-Inv params _ _ (check-Marks params net x y state e inv) inv

  pub Reach-Inv : (net : Network) → Reach params net → Inv params (view_of params net)
  Reach-Inv net here = quiet-Inv params
  Reach-Inv net (next before after r step) = Step-Inv before after step (Reach-Inv before r)

  quiet-Delivers : Delivers params (view_of params quiet)
  unfolding synced_at sent_at
  quiet-Delivers = record { absent = λ x y d n. rw n refl; delivered = λ x y d qx qy s e. cc }

  Step-Delivers :
      (net net' : Network)
      → Step params net net'
      → Inv params (view_of params net)
      → Delivers params (view_of params net)
      → Delivers params (view_of params net')
  Step-Delivers net net' (see x y value op width state place unseen e) inv =
      Marks-Delivers params _ _ (see-Marks params net x y value op width state unseen e inv)
  Step-Delivers net net' (send x y d state value place e may v) inv =
      Sends-Delivers params _ _ x y d (send-Sends params net x y d state value place e may)
  Step-Delivers net net' (receive x y d qx qy value state l e got) inv =
      Gets-Delivers params _ _ x y d qx qy
        (receive-Gets params net x y d qx qy value state inv (in_flight net x y d value l) e got)
  Step-Delivers net net' (check x y state place e) inv =
      Marks-Delivers params _ _ (check-Marks params net x y state e inv)

  Reach-Delivers : (net : Network) → Reach params net → Delivers params (view_of params net)
  Reach-Delivers net here = quiet-Delivers
  Reach-Delivers net (next before after r step) =
      Step-Delivers before after step (Reach-Inv before r) (Reach-Delivers before r)

  -- In every state of the synchronization network that can be reached from the quiet one, by
  -- events, sends, receptions and checks in any order with one event at most at each place, a
  -- place whose synchronization is complete shows that every place of the network has seen the
  -- event.
  pub completed-all_seen :
      (net : Network) (x y cx cy : ℕ)
      → Reach params net
      → is_place params x y ≡ true
      → is_place params cx cy ≡ true
      → completed_at net x y ≡ true
      → local_seen_at net cx cy ≡ true
  completed-all_seen net x y cx cy reach place cell f =
      let inv = Reach-Inv net reach in
      covers_all params x y cx cy (local_seen_at net cx cy) place cell
        (λ d r. let (_, s) = inv.ended x y d f in inv.known x y d cx cy place cell s r)
        (λ h.
          let (ex, ey) = same_place-eq x y cx cy h in
          let (s, _) = inv.ended x y to_n f in rw (ex, ey) s)

  -- In a reachable state of the synchronization network, the receiver of a packet in flight takes
  -- it without an error: the assertion against a second packet from one region never fails.
  pub link-mark_received :
      (net : Network) (x y : ℕ) (d : SyncDirection) (qx qy : ℕ) (value : Option ℕ)
      → Reach params net
      → net.links x y d ≡ some value
      → shift d x y ≡ some (qx, qy)
      → (state : SyncState) × (mark_received params qx qy value (opposite d) (net.entries qx qy)
          ≡ ok state)
  link-mark_received net x y d qx qy value reach l e =
      let inv = Reach-Inv net reach in
      let flies = in_flight net x y d value l in
      mark_received-ok params net qx qy value (opposite d)
        (open_receiver params net x y d qx qy inv flies e) (inv.waiting x y d qx qy flies e)

  module _ (net : Network) (reach : Reach params net)
      (all_seen : (x y : ℕ) → is_place params x y ≡ true → local_seen_at net x y ≡ true)
      (still : (x y : ℕ) (d : SyncDirection) → net.links x y d ≡ none)
      (stuck : (x y : ℕ) (d : SyncDirection) (state : SyncState)
        → is_place params x y ≡ true
        → net.entries x y ≡ some state
        → should_send params x y state d ≡ false) where
    seen_entry :
        (x y : ℕ)
        → local_seen_at net x y ≡ true
        → (state : SyncState) × (net.entries x y ≡ some state)
    unfolding local_seen_at
    seen_entry x y h = by_entry (net.entries x y) h
      where
        by_entry :
            (entry : Option SyncState)
            → (elim entry [ none ↦ false | some s ↦ s.local_seen ]) ≡ true
            → (state : SyncState) × (entry ≡ some state)
        by_entry none h = cc
        by_entry (some s) h = (s, refl)

    no_link : (x y : ℕ) (d : SyncDirection) → link_at net x y d ≡ false
    unfolding link_at
    no_link x y d =
        ap (λ (packet : Option (Option ℕ)). elim packet [ none ↦ false | some _ ↦ true ])
          (still x y d)

    all_sent :
        (x y : ℕ) (d : SyncDirection)
        → is_place params x y ≡ true
        → has_neighbor params x y d ≡ true
        → all_of (synced_at params net x y) (get_send_requirements x y d) ≡ true
        → sent_at net x y d ≡ true
    unfolding should_send
    all_sent x y d place near known =
        let (state, e) = seen_entry x y (all_seen x y place) in
        let facts = λ (r : SyncDirection). shown params net x y state r e in
        let known' = rw (fun_ext (λ r. (facts r).1)) at known in
        let own = sym ((facts d).0) ∙ all_seen x y place in
        (facts d).2
        ∙ not_false (state.sent_directions d)
            (rw (near, own, known') at (stuck x y d state place e))
      where
        not_false : (b : Bool) → (not b && true) ≡ false → b ≡ true
        not_false true h = refl
        not_false false h = cc

    -- In a reachable state of the synchronization network in which every place has seen the
    -- event, no packet is in flight and no place should send, the check for completion
    -- completes the synchronization at every place.
    pub quiescent-mark_completed :
        (x y : ℕ)
        → is_place params x y ≡ true
        → (state : SyncState) × (net.entries x y ≡ some state)
          × ((mark_completed params x y state).completed ≡ true)
    quiescent-mark_completed x y place =
        let (state, e) = seen_entry x y (all_seen x y place) in
        let facts = λ (r : SyncDirection). shown params net x y state r e in
        let known = λ (r : SyncDirection).
          synced_everywhere params (view_of params net) (Reach-Delivers net reach) no_link all_sent
            x y r place in
        (
          state,
          e,
          mark_completed-completed params x y state (sym ((facts to_n).0) ∙ all_seen x y place)
              (λ r. sym ((facts r).1) ∙ known r)
              (λ r near.
                sym ((facts r).2)
                ∙ all_sent x y r place near
                    (all-all_of (synced_at params net x y) (get_send_requirements x y r) known)),
        )
