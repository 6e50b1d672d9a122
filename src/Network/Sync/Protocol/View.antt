-- ===== src/Network/Sync/Protocol/View.antt =====
-- What a place of the synchronization network shows: whether it saw the event, of which regions it
-- was told, whom it told, and whether it is done. A place without a state shows a fresh one.
use zamlet.Common.{
  ℕ, ◌==◌, if◌then◌else◌, Bool, Bool-cases, inl, inr, true, false, ◌&&◌, not, ◌≡◌, refl, subst, ap,
  ◌∙◌, arith, Option, none, some, ok, assert, ◌>>◌, >>=-eq-ok, assert-then, ok_unique,
}
use zamlet.Params.{ZamletParams}
use zamlet.Network.Sync.Aggregate.{SyncAggOp}
use zamlet.Network.Sync.Grid.{
  SyncDirection, to_n, to_s, to_e, to_w, to_ne, to_nw, to_se, to_sw, all_directions, same_direction,
  has_neighbor,
}
use zamlet.Network.Sync.State.{
  SyncState, same_op, assign, all_of, start_state, may_complete, current_state, set_op, mark_local,
  mark_received, mark_completed,
}
use zamlet.Network.Sync.Protocol.{Network, same_place, put_state, put_link, local_seen_at}

module _ (params : ZamletParams) where
  unfoldable pub synced_at : Network → ℕ → ℕ → SyncDirection → Bool
  synced_at net x y d = elim (net.entries x y) [
    | none ↦ not (has_neighbor params x y d)
    | some state ↦ state.synced d
  ]

unfoldable pub completed_at : Network → ℕ → ℕ → Bool
completed_at net x y = elim (net.entries x y) [ none ↦ false | some state ↦ state.completed ]

unfoldable pub sent_at : Network → ℕ → ℕ → SyncDirection → Bool
sent_at net x y d = elim (net.entries x y) [ none ↦ false | some state ↦ state.sent_directions d ]

unfoldable pub link_at : Network → ℕ → ℕ → SyncDirection → Bool
link_at net x y d = elim (net.links x y d) [ none ↦ false | some _ ↦ true ]

if-ap :
    {A B : Type 0} (f : A → B) (t : Bool) (a b : A)
    → f (if t then a else b) ≡ (if t then f a else f b)
if-ap f true a b = refl
if-ap f false a b = refl

module _ (params : ZamletParams) (net : Network) (x y : ℕ) (state : SyncState) (cx cy : ℕ) where
  pub local_seen_at-put_state :
      local_seen_at (put_state net x y state) cx cy
      ≡ (if same_place x y cx cy then state.local_seen else local_seen_at net cx cy)
  unfolding local_seen_at
  local_seen_at-put_state =
      if-ap (λ (entry : Option SyncState). elim entry [ none ↦ false | some s ↦ s.local_seen ])
        (same_place x y cx cy) (some state) (net.entries cx cy)

  pub completed_at-put_state :
      completed_at (put_state net x y state) cx cy
      ≡ (if same_place x y cx cy then state.completed else completed_at net cx cy)
  unfolding completed_at
  completed_at-put_state =
      if-ap (λ (entry : Option SyncState). elim entry [ none ↦ false | some s ↦ s.completed ])
        (same_place x y cx cy) (some state) (net.entries cx cy)

  pub synced_at-put_state :
      (d : SyncDirection)
      → synced_at params (put_state net x y state) cx cy d
        ≡ (if same_place x y cx cy then state.synced d else synced_at params net cx cy d)
  unfolding synced_at
  synced_at-put_state d =
      if-ap
        (λ (entry : Option SyncState). elim entry [
          | none ↦ not (has_neighbor params cx cy d)
          | some s ↦ s.synced d
        ])
        (same_place x y cx cy) (some state) (net.entries cx cy)

  pub sent_at-put_state :
      (d : SyncDirection)
      → sent_at (put_state net x y state) cx cy d
        ≡ (if same_place x y cx cy then state.sent_directions d else sent_at net cx cy d)
  unfolding sent_at
  sent_at-put_state d =
      if-ap
        (λ (entry : Option SyncState). elim entry [ none ↦ false | some s ↦ s.sent_directions d ])
        (same_place x y cx cy) (some state) (net.entries cx cy)

  pub link_at-put_state :
      (d : SyncDirection) → link_at (put_state net x y state) cx cy d ≡ link_at net cx cy d
  unfolding link_at
  link_at-put_state d = refl

module _ (params : ZamletParams) (net : Network) (x y : ℕ) (pd : SyncDirection)
    (packet : Option (Option ℕ)) (cx cy : ℕ) where
  pub local_seen_at-put_link :
      local_seen_at (put_link net x y pd packet) cx cy ≡ local_seen_at net cx cy
  unfolding local_seen_at
  local_seen_at-put_link = refl

  pub completed_at-put_link :
      completed_at (put_link net x y pd packet) cx cy ≡ completed_at net cx cy
  unfolding completed_at
  completed_at-put_link = refl

  pub synced_at-put_link :
      (d : SyncDirection)
      → synced_at params (put_link net x y pd packet) cx cy d ≡ synced_at params net cx cy d
  unfolding synced_at
  synced_at-put_link d = refl

  pub sent_at-put_link :
      (d : SyncDirection) → sent_at (put_link net x y pd packet) cx cy d ≡ sent_at net cx cy d
  unfolding sent_at
  sent_at-put_link d = refl

pub link_at-put_link :
    (net : Network) (x y : ℕ) (d : SyncDirection) (packet : Option (Option ℕ)) (cx cy : ℕ)
    (e : SyncDirection)
    → link_at (put_link net x y d packet) cx cy e ≡ (
        if same_place x y cx cy
        then (if same_direction d e
            then elim packet [ none ↦ false | some _ ↦ true ]
            else link_at net x y e)
        else link_at net cx cy e)
unfolding link_at
link_at-put_link net x y d packet cx cy e =
    if-ap (λ (l : SyncDirection → Option (Option ℕ)). elim (l e) [ none ↦ false | some _ ↦ true ])
      (same_place x y cx cy) (assign (net.links x y) d packet) (net.links cx cy)
    ∙ ap (λ (b : Bool). if same_place x y cx cy then b else link_at net cx cy e)
        (if-ap (λ (l : Option (Option ℕ)). elim l [ none ↦ false | some _ ↦ true ])
          (same_direction d e) packet (net.links x y e))

pub all_of-directions :
    (p : SyncDirection → Bool) (d : SyncDirection) → all_of p all_directions ≡ true → p d ≡ true
all_of-directions p to_n h = ground arith
all_of-directions p to_s h = ground arith
all_of-directions p to_e h = ground arith
all_of-directions p to_w h = ground arith
all_of-directions p to_ne h = ground arith
all_of-directions p to_nw h = ground arith
all_of-directions p to_se h = ground arith
all_of-directions p to_sw h = ground arith

module _ (params : ZamletParams) where
  -- A state becomes complete only where the place saw the event and all regions are synchronized.
  pub mark_completed_lem :
      (x y : ℕ) (state : SyncState) (d : SyncDirection)
      → let after = mark_completed params x y state in
        (after.local_seen ≡ state.local_seen)
        × (after.synced d ≡ state.synced d)
        × (after.sent_directions d ≡ state.sent_directions d)
        × (after.completed ≡ true
            → state.completed ≡ false
            → (state.local_seen ≡ true) × (state.synced d ≡ true))
  unfolding mark_completed may_complete
  mark_completed_lem x y state d = elim (Bool-cases (may_complete params x y state)) [
    | inl may ↦
        rw may (
          refl,
          refl,
          refl,
          λ _ _. (ground arith, all_of-directions (state.synced) d (ground arith)),
        )
    | inr not_yet ↦ rw not_yet (refl, refl, refl, λ e f. ground arith)
  ]

  abbrev SameFlags : SyncState → SyncState → SyncDirection → Type 0
  SameFlags after state d =
      (after.synced d ≡ state.synced d)
      × (after.sent_directions d ≡ state.sent_directions d)
      × (after.completed ≡ state.completed)

  set_op_lem :
      (op : SyncAggOp) (width : ℕ) (state after : SyncState) (d : SyncDirection)
      → set_op op width state ≡ ok after
      → SameFlags after state d
  set_op_lem op width state after d e = by_op (state.op) e
    where
      by_op :
          (old : Option SyncAggOp)
          → (elim old [
            | none ↦ ok (record state { op = some op; width = width })
            | some a ↦ assert (same_op (some a) op && state.width == width) >> ok state
          ])
            ≡ ok after
          → SameFlags after state d
      by_op none f = subst (λ s. SameFlags s state d) (ok_unique f) (refl, refl, refl)
      by_op (some a) f =
          let (_, g) = assert-then (same_op (some a) op && state.width == width) (ok state) f in
          subst (λ s. SameFlags s state d) (ok_unique g) (refl, refl, refl)

  -- A place without a state, or with one that is not complete, goes on from what it shows.
  current_state_lem :
      (op : Option SyncAggOp) (width : ℕ) (net : Network) (x y : ℕ) (d : SyncDirection)
      → completed_at net x y ≡ false
      → let state = current_state params x y op width (net.entries x y) in
        (state.synced d ≡ synced_at params net x y d)
        × (state.sent_directions d ≡ sent_at net x y d)
        × (state.completed ≡ false)
        × (state.local_seen ≡ local_seen_at net x y)
  unfolding completed_at synced_at sent_at current_state start_state local_seen_at
  current_state_lem op width net x y d open_yet = by_entry (net.entries x y) open_yet
    where
      by_entry :
          (entry : Option SyncState)
          → (elim entry [ none ↦ false | some s ↦ s.completed ]) ≡ false
          → let state = current_state params x y op width entry in
            (state.synced d
              ≡ (elim entry [ none ↦ not (has_neighbor params x y d) | some s ↦ s.synced d ]))
            × (state.sent_directions d
                ≡ (elim entry [ none ↦ false | some s ↦ s.sent_directions d ]))
            × (state.completed ≡ false)
            × (state.local_seen ≡ (elim entry [ none ↦ false | some s ↦ s.local_seen ]))
      by_entry none e = (refl, refl, refl, refl)
      by_entry (some s) e = simp (e) (refl, refl, refl, refl)

  -- What `mark_local` does to a place that is not done.
  pub mark_local_lem :
      (net : Network) (x y : ℕ) (value : Option ℕ) (op : SyncAggOp) (width : ℕ) (state : SyncState)
      (d : SyncDirection)
      → completed_at net x y ≡ false
      → mark_local params x y value op width (net.entries x y) ≡ ok state
      → (state.local_seen ≡ true)
        × (state.synced d ≡ synced_at params net x y d)
        × (state.sent_directions d ≡ sent_at net x y d)
        × (state.completed ≡ false)
  unfolding mark_local
  mark_local_lem net x y value op width state d open_yet e =
      let start = current_state params x y (some op) width (net.entries x y) in
      let (s, e1, e2) = >>=-eq-ok (set_op op width start) _ e in
      let (a, b, c) = set_op_lem op width start s d e1 in
      let (a', b', c', _) = current_state_lem (some op) width net x y d open_yet in
      subst
        (λ t.
          (t.local_seen ≡ true)
          × (t.synced d ≡ synced_at params net x y d)
          × (t.sent_directions d ≡ sent_at net x y d)
          × (t.completed ≡ false))
        (ok_unique e2) (refl, a ∙ a', b ∙ b', c ∙ c')

  -- What `mark_received` does to a place that is not done.
  pub mark_received_lem :
      (net : Network) (x y : ℕ) (value : Option ℕ) (from_direction : SyncDirection)
      (state : SyncState) (d : SyncDirection)
      → completed_at net x y ≡ false
      → mark_received params x y value from_direction (net.entries x y) ≡ ok state
      → (state.local_seen ≡ local_seen_at net x y)
        × (state.synced d
            ≡ (if same_direction from_direction d then true else synced_at params net x y d))
        × (state.sent_directions d ≡ sent_at net x y d)
        × (state.completed ≡ false)
  unfolding mark_received
  mark_received_lem net x y value from_direction state d open_yet e =
      let start = current_state params x y none 32 (net.entries x y) in
      let (_, e2) = assert-then (not (start.synced from_direction)) _ e in
      let (a, b, c, l) = current_state_lem none 32 net x y d open_yet in
      subst
        (λ t.
          (t.local_seen ≡ local_seen_at net x y)
          × (t.synced d
              ≡ (if same_direction from_direction d then true else synced_at params net x y d))
          × (t.sent_directions d ≡ sent_at net x y d)
          × (t.completed ≡ false))
        (ok_unique e2)
        (l, ap (λ (t : Bool). if same_direction from_direction d then true else t) a, b, c)

  -- Where the region was not synchronized, the packet from it is taken.
  pub mark_received-ok :
      (net : Network) (x y : ℕ) (value : Option ℕ) (from_direction : SyncDirection)
      → completed_at net x y ≡ false
      → synced_at params net x y from_direction ≡ false
      → (state : SyncState) × (mark_received params x y value from_direction (net.entries x y)
          ≡ ok state)
  unfolding mark_received
  mark_received-ok net x y value from_direction open_yet fresh =
      let (a, _, _, _) = current_state_lem none 32 net x y from_direction open_yet in
      rw (a ∙ fresh) (_, refl)
