-- ===== src/Network/Sync/Protocol/Steps.antt =====
-- Each step of the synchronization network changes what the places show as the invariant allows.
use zamlet.Common.{
  ℕ, if◌then◌else◌, Bool, Bool-cases, inl, inr, true, false, ◌&&◌, ◌||◌, not, ◌≡◌, refl, sym, ◌∙◌,
  ap, Option, none, some, ok,
}
use mathlib.Core.Path.{fun_ext}
use zamlet.Params.{ZamletParams}
use zamlet.Network.Sync.Aggregate.{SyncAggOp}
use zamlet.Network.Sync.Grid.{SyncDirection, to_n, same_direction, shift, is_place, has_neighbor}
use zamlet.Network.Sync.Grid.Regions.{opposite}
use zamlet.Network.Sync.State.{
  SyncState, should_send, mark_local, mark_received, mark_sent, mark_completed,
}
use zamlet.Network.Sync.Protocol.{Network, same_place, put_state, put_link, local_seen_at}
use zamlet.Network.Sync.Protocol.View.{
  synced_at, completed_at, sent_at, link_at, local_seen_at-put_state, completed_at-put_state,
  synced_at-put_state, sent_at-put_state, local_seen_at-put_link, completed_at-put_link,
  synced_at-put_link, sent_at-put_link, link_at-put_link, mark_completed_lem, mark_local_lem,
  mark_received_lem,
}
use zamlet.Network.Sync.Protocol.Safety.{Inv, Marks}
use zamlet.Network.Sync.Protocol.Sending.{Sends}
use zamlet.Network.Sync.Protocol.Receiving.{Gets}
use zamlet.Network.Sync.Protocol.Same.{same_place-eq, and-parts}
use zamlet.Network.Sync.Protocol.Touch.{
  view_of, open_place, untouched, Ended, mark_completed-Ended, put_state-Ended, mark-Marks,
}

module _ (params : ZamletParams) where
  -- The place that sees the event, or that is looked at.
  pub see-Marks :
      (net : Network) (x y : ℕ) (value : Option ℕ) (op : SyncAggOp) (width : ℕ) (state : SyncState)
      → local_seen_at net x y ≡ false
      → mark_local params x y value op width (net.entries x y) ≡ ok state
      → Inv params (view_of params net)
      → Marks params
          (view_of params net)
          (view_of params (put_state net x y (mark_completed params x y state)))
  see-Marks net x y value op width state unseen e inv =
      let open_yet = open_place params net x y inv unseen in
      let facts =
        λ (d : SyncDirection). mark_local_lem params net x y value op width state d open_yet e in
      mark-Marks params net x y state inv (λ d f. let g = (facts d).3 in cc) (λ s. (facts to_n).0)
        (λ d. (facts d).1) (λ d. (facts d).2)

  pub shown :
      (net : Network) (x y : ℕ) (state : SyncState) (d : SyncDirection)
      → net.entries x y ≡ some state
      → (local_seen_at net x y ≡ state.local_seen)
        × (synced_at params net x y d ≡ state.synced d)
        × (sent_at net x y d ≡ state.sent_directions d)
        × (completed_at net x y ≡ state.completed)
  unfolding local_seen_at synced_at sent_at completed_at
  shown net x y state d e = (
    ap (λ (entry : Option SyncState). elim entry [ none ↦ false | some s ↦ s.local_seen ]) e,
    ap
        (λ (entry : Option SyncState). elim entry [
          | none ↦ not (has_neighbor params x y d)
          | some s ↦ s.synced d
        ])
        e,
    ap (λ (entry : Option SyncState). elim entry [ none ↦ false | some s ↦ s.sent_directions d ]) e,
    ap (λ (entry : Option SyncState). elim entry [ none ↦ false | some s ↦ s.completed ]) e,
  )

  pub check-Marks :
      (net : Network) (x y : ℕ) (state : SyncState)
      → net.entries x y ≡ some state
      → Inv params (view_of params net)
      → Marks params
          (view_of params net)
          (view_of params (put_state net x y (mark_completed params x y state)))
  check-Marks net x y state e inv =
      let facts = λ (d : SyncDirection). shown net x y state d e in
      mark-Marks params net x y state inv
        (λ d f.
          let (a, b, _, c) = facts d in
          let (s, t) = inv.ended x y d (c ∙ f) in (sym a ∙ s, sym b ∙ t))
        (λ s. sym ((facts to_n).0) ∙ s) (λ d. sym ((facts d).1)) (λ d. sym ((facts d).2))

  overlay :
      (f : ℕ → ℕ → Bool) (x y cx cy : ℕ) (t new r : Bool)
      → r ≡ (if same_place x y cx cy then (if t then new else f x y) else f cx cy)
      → r ≡ (if same_place x y cx cy && t then new else f cx cy)
  overlay f x y cx cy t new r e = elim (Bool-cases (same_place x y cx cy)) [
    | inl s ↦
        let (ex, ey) = same_place-eq x y cx cy s in
        rw s ((rw s at e) ∙ ap (λ (b : Bool). if t then new else b) (rw (ex, ey) refl))
    | inr s ↦ rw s (rw s at e)
  ]

  if-or : (t b : Bool) → (if t then true else b) ≡ (t || b)
  if-or true b = refl
  if-or false b = refl

  if-not : (t b : Bool) → (if t then false else b) ≡ (not t && b)
  if-not true b = refl
  if-not false b = refl

  link_after :
      (net : Network) (x y : ℕ) (state : SyncState) (sx sy : ℕ) (d : SyncDirection)
      (packet : Option (Option ℕ)) (cx cy : ℕ) (e : SyncDirection)
      → link_at (put_link (put_state net x y state) sx sy d packet) cx cy e ≡ (
          if same_place sx sy cx cy && same_direction d e
          then elim packet [ none ↦ false | some _ ↦ true ]
          else link_at net cx cy e)
  unfolding link_at
  link_after net x y state sx sy d packet cx cy e =
      overlay (λ a b. link_at net a b e) sx sy cx cy (same_direction d e) _ _
        (link_at-put_link (put_state net x y state) sx sy d packet cx cy e)

  pub send-Sends :
      (net : Network) (x y : ℕ) (d : SyncDirection) (state : SyncState) (value : Option ℕ)
      → is_place params x y ≡ true
      → net.entries x y ≡ some state
      → should_send params x y state d ≡ true
      → Sends params
          (view_of params net)
          (view_of params (put_link (put_state net x y (mark_sent d state)) x y d (some value)))
          x
          y
          d
  unfolding should_send mark_sent
  send-Sends net x y d state value place e may =
      let after = mark_sent d state in
      let moved = put_state net x y after in
      let facts = λ (r : SyncDirection). shown net x y state r e in
      let (near, may1) = and-parts _ _ may in
      let (first, may2) = and-parts _ _ may1 in
      let (own, regions) = and-parts _ _ may2 in
      record {
        place = place;
        near = near;
        first = (facts d).2 ∙ not_true (state.sent_directions d) first;
        own = (facts d).0 ∙ own;
        regions = rw (fun_ext (λ r. (facts r).1)) regions;
        seen = λ cx cy.
            local_seen_at-put_link params moved x y d (some value) cx cy
            ∙ untouched params (λ a b. local_seen_at net a b) x y cx cy (after.local_seen) _
                (local_seen_at-put_state params net x y after cx cy) (sym ((facts d).0));
        synced = λ cx cy r.
            synced_at-put_link params moved x y d (some value) cx cy r
            ∙ untouched params (λ a b. synced_at params net a b r) x y cx cy (after.synced r) _
                (synced_at-put_state params net x y after cx cy r) (sym ((facts r).1));
        sent = λ cx cy r.
            sent_at-put_link params moved x y d (some value) cx cy r
            ∙ overlay (λ a b. sent_at net a b r) x y cx cy (same_direction d r) true _
                (sent_at-put_state params net x y after cx cy r
                  ∙ ap
                      (λ (b : Bool).
                        if same_place x y cx cy
                        then (if same_direction d r then true else b)
                        else sent_at net cx cy r)
                      (sym ((facts r).2)))
            ∙ if-or (same_place x y cx cy && same_direction d r) (sent_at net cx cy r);
        link = λ cx cy r.
            link_after net x y after x y d (some value) cx cy r
            ∙ if-or (same_place x y cx cy && same_direction d r) (link_at net cx cy r);
        done = λ cx cy.
            completed_at-put_link params moved x y d (some value) cx cy
            ∙ untouched params (λ a b. completed_at net a b) x y cx cy (after.completed) _
                (completed_at-put_state params net x y after cx cy) (sym ((facts d).3));
      }
    where
      not_true : (b : Bool) → not b ≡ true → b ≡ false
      not_true true h = cc
      not_true false h = refl

  -- The receiver of a packet in flight is not done.
  pub open_receiver :
      (net : Network) (x y : ℕ) (d : SyncDirection) (qx qy : ℕ)
      → Inv params (view_of params net)
      → link_at net x y d ≡ true
      → shift d x y ≡ some (qx, qy)
      → completed_at net qx qy ≡ false
  open_receiver net x y d qx qy inv l e =
      let waiting = inv.waiting x y d qx qy l e in
      elim (Bool-cases (completed_at net qx qy)) [
        | inl f ↦ let (_, s) = inv.ended qx qy (opposite d) f in cc
        | inr g ↦ g
      ]

  pub receive-Gets :
      (net : Network) (x y : ℕ) (d : SyncDirection) (qx qy : ℕ) (value : Option ℕ)
      (state : SyncState)
      → Inv params (view_of params net)
      → link_at net x y d ≡ true
      → shift d x y ≡ some (qx, qy)
      → mark_received params qx qy value (opposite d) (net.entries qx qy) ≡ ok state
      → Gets params
          (view_of params net)
          (view_of params
            (put_link (put_state net qx qy (mark_completed params qx qy state)) x y d none))
          x
          y
          d
          qx
          qy
  receive-Gets net x y d qx qy value state inv l e got =
      let after = mark_completed params qx qy state in
      let moved = put_state net qx qy after in
      let open_yet = open_receiver net x y d qx qy inv l e in
      let facts = λ (r : SyncDirection).
        mark_received_lem params net qx qy value (opposite d) state r open_yet got in
      let kept = λ (r : SyncDirection). mark_completed_lem params qx qy state r in
      let ended : Ended params state = λ r f. (let g = (facts r).3 in cc) in
      record {
        flies = l;
        to = e;
        seen = λ cx cy.
            local_seen_at-put_link params moved x y d none cx cy
            ∙ untouched params (λ a b. local_seen_at net a b) qx qy cx cy (after.local_seen) _
                (local_seen_at-put_state params net qx qy after cx cy) ((kept d).0 ∙ (facts d).0);
        synced = λ cx cy r.
            synced_at-put_link params moved x y d none cx cy r
            ∙ overlay (λ a b. synced_at params net a b r) qx qy cx cy
                (same_direction (opposite d) r) true _
                (synced_at-put_state params net qx qy after cx cy r
                  ∙ ap
                      (λ (b : Bool).
                        if same_place qx qy cx cy then b else synced_at params net cx cy r)
                      ((kept r).1 ∙ (facts r).1))
            ∙ if-or (same_place qx qy cx cy && same_direction (opposite d) r)
                (synced_at params net cx cy r);
        sent = λ cx cy r.
            sent_at-put_link params moved x y d none cx cy r
            ∙ untouched params (λ a b. sent_at net a b r) qx qy cx cy (after.sent_directions r) _
                (sent_at-put_state params net qx qy after cx cy r) ((kept r).2 ∙ (facts r).2);
        link = λ cx cy r.
            link_after net qx qy after x y d none cx cy r
            ∙ if-not (same_place x y cx cy && same_direction d r) (link_at net cx cy r);
        done = λ cx cy r f.
            let (a, b) =
              put_state-Ended params net qx qy after cx cy r inv
                (mark_completed-Ended params qx qy state ended) (λ s. (kept r).0 ∙ (facts r).0 ∙ s)
                (λ s.
                  (kept r).1
                  ∙ (facts r).1
                  ∙ rw s (
                      if-or (same_direction (opposite d) r) true
                      ∙ or_true (same_direction (opposite d) r)))
                (sym (completed_at-put_link params moved x y d none cx cy) ∙ f) in
            (
              local_seen_at-put_link params moved x y d none cx cy ∙ a,
              synced_at-put_link params moved x y d none cx cy r ∙ b,
            );
      }
    where
      or_true : (b : Bool) → (b || true) ≡ true
      or_true true = refl
      or_true false = refl
