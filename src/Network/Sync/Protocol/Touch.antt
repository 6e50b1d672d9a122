-- ===== src/Network/Sync/Protocol/Touch.antt =====
-- The change of one place's state keeps what is known true.
use zamlet.Common.{
  ℕ, if◌then◌else◌, Bool, Bool-cases, inl, inr, true, false, ◌≡◌, refl, sym, ◌∙◌, arith, List, [],
  ◌∷◌,
}
use zamlet.Params.{ZamletParams}
use zamlet.Network.Sync.Grid.{SyncDirection, to_n, all_directions, has_neighbor}
use zamlet.Network.Sync.Grid.Regions.{covers-has_neighbor, has_neighbor-opposite}
use zamlet.Network.Sync.State.{
  SyncState, all_of, all_sends_complete, sent_or_absent, may_complete, mark_completed,
}
use zamlet.Network.Sync.Protocol.{Network, same_place, put_state, local_seen_at, quiet}
use zamlet.Network.Sync.Protocol.View.{
  synced_at, completed_at, sent_at, link_at, local_seen_at-put_state, completed_at-put_state,
  synced_at-put_state, sent_at-put_state, link_at-put_state, mark_completed_lem,
}
use zamlet.Network.Sync.Protocol.Safety.{View, Inv, Marks}
use zamlet.Network.Sync.Protocol.Same.{same_place-eq}

pub all-all_of :
    (p : SyncDirection → Bool) (ds : List SyncDirection)
    → ((d : SyncDirection) → p d ≡ true)
    → all_of p ds ≡ true
all-all_of p [] h = refl
all-all_of p (d ∷ ds) h = rw (h d) (all-all_of p ds h)

-- A state for which nothing is missing is complete.
pub mark_completed-completed :
    (params : ZamletParams) (x y : ℕ) (state : SyncState)
    → state.local_seen ≡ true
    → ((d : SyncDirection) → state.synced d ≡ true)
    → ((d : SyncDirection) → has_neighbor params x y d ≡ true → state.sent_directions d ≡ true)
    → (mark_completed params x y state).completed ≡ true
unfolding mark_completed may_complete all_sends_complete
mark_completed-completed params x y state own synced sent =
    rw
      (
        own,
        all-all_of (state.synced) all_directions synced,
        all-all_of (sent_or_absent params x y state) all_directions not_missing,
      )
      refl
  where
    not_missing : (d : SyncDirection) → sent_or_absent params x y state d ≡ true
    not_missing d = elim (Bool-cases (has_neighbor params x y d)) [
      | inl near ↦ rw (near, sent d near) refl
      | inr alone ↦ rw alone refl
    ]

module _ (params : ZamletParams) where
  abbrev pub view_of : Network → View
  view_of net = record {
    seen = local_seen_at net;
    synced = synced_at params net;
    sent = sent_at net;
    done = completed_at net;
    link = link_at net;
  }

  pub quiet-Inv : Inv params (view_of quiet)
  unfolding synced_at sent_at completed_at link_at local_seen_at
  quiet-Inv = record {
    known = λ x y d cx cy p c s r.
        let empty = covers-has_neighbor params d x y cx cy p c (ground arith) in ground arith;
    flying = λ x y d qx qy cx cy l e c r. cc;
    linked = λ x y d l. cc;
    waiting = λ x y d qx qy l e. cc;
    told = λ x y d qx qy p n e s.
        let (_, back, _) = has_neighbor-opposite params d x y qx qy p n e in ground arith;
    ended = λ x y d f. cc;
  }

  -- A place that has not seen the event is not done.
  pub open_place :
      (net : Network) (x y : ℕ)
      → Inv params (view_of net)
      → local_seen_at net x y ≡ false
      → completed_at net x y ≡ false
  open_place net x y inv unseen = elim (Bool-cases (completed_at net x y)) [
    | inl f ↦ let (s, _) = inv.ended x y to_n f in cc
    | inr g ↦ g
  ]

  pub untouched :
      (f : ℕ → ℕ → Bool) (x y cx cy : ℕ) (new r : Bool)
      → r ≡ (if same_place x y cx cy then new else f cx cy)
      → new ≡ f x y
      → r ≡ f cx cy
  untouched f x y cx cy new r e h = elim (Bool-cases (same_place x y cx cy)) [
    | inl s ↦ let (ex, ey) = same_place-eq x y cx cy s in rw (ex, ey) ((rw s at e) ∙ h)
    | inr s ↦ rw s at e
  ]

  -- The new state of a place shows at that place, and the others show what they did.
  at_place :
      (f : ℕ → ℕ → Bool) (x y cx cy : ℕ) (new r : Bool) {P : Type 0}
      → r ≡ (if same_place x y cx cy then new else f cx cy)
      → r ≡ true
      → (same_place x y cx cy ≡ true → new ≡ true → P)
      → (f cx cy ≡ true → P)
      → P
  at_place f x y cx cy new r e h touched other = elim (Bool-cases (same_place x y cx cy)) [
    | inl s ↦ touched s (sym (rw s at e) ∙ h)
    | inr s ↦ other (sym (rw s at e) ∙ h)
  ]

  abbrev pub Ended : SyncState → Type 0
  Ended state =
      (d : SyncDirection)
      → state.completed ≡ true
      → (state.local_seen ≡ true) × (state.synced d ≡ true)

  pub mark_completed-Ended :
      (x y : ℕ) (state : SyncState) → Ended state → Ended (mark_completed params x y state)
  mark_completed-Ended x y state ended d f =
      let (a, b, _, c) = mark_completed_lem params x y state d in
      elim (Bool-cases (state.completed)) [
        | inl g ↦ let (s, t) = ended d g in (a ∙ s, b ∙ t)
        | inr g ↦ let (s, t) = c f g in (a ∙ s, b ∙ t)
      ]

  pub put_state-Ended :
      (net : Network) (x y : ℕ) (state : SyncState) (cx cy : ℕ) (d : SyncDirection)
      → Inv params (view_of net)
      → Ended state
      → (local_seen_at net x y ≡ true → state.local_seen ≡ true)
      → (synced_at params net x y d ≡ true → state.synced d ≡ true)
      → completed_at (put_state net x y state) cx cy ≡ true
      → (local_seen_at (put_state net x y state) cx cy ≡ true)
        × (synced_at params (put_state net x y state) cx cy d ≡ true)
  put_state-Ended net x y state cx cy d inv ended grows grows' f =
      elim (Bool-cases (same_place x y cx cy)) [
        | inl s ↦
            let (a, b) =
              ended d (sym (rw s at (completed_at-put_state params net x y state cx cy)) ∙ f) in
            (
              (rw s at (local_seen_at-put_state params net x y state cx cy)) ∙ a,
              (rw s at (synced_at-put_state params net x y state cx cy d)) ∙ b,
            )
        | inr s ↦
            let (a, b) =
              inv.ended cx cy d
                (sym (rw s at (completed_at-put_state params net x y state cx cy)) ∙ f) in
            (
              (rw s at (local_seen_at-put_state params net x y state cx cy)) ∙ a,
              (rw s at (synced_at-put_state params net x y state cx cy d)) ∙ b,
            )
      ]

  pub put_state-seen :
      (net : Network) (x y : ℕ) (state : SyncState) (cx cy : ℕ)
      → (local_seen_at net x y ≡ true → state.local_seen ≡ true)
      → local_seen_at net cx cy ≡ true
      → local_seen_at (put_state net x y state) cx cy ≡ true
  put_state-seen net x y state cx cy grows h = elim (Bool-cases (same_place x y cx cy)) [
    | inl s ↦
        let (ex, ey) = same_place-eq x y cx cy s in
        (rw s at (local_seen_at-put_state params net x y state cx cy)) ∙ grows (rw (ex, ey) at h)
    | inr s ↦ (rw s at (local_seen_at-put_state params net x y state cx cy)) ∙ h
  ]

  -- A state with the flags that the place shows, but for the local event.
  pub mark-Marks :
      (net : Network) (x y : ℕ) (state : SyncState)
      → Inv params (view_of net)
      → Ended state
      → (local_seen_at net x y ≡ true → state.local_seen ≡ true)
      → ((d : SyncDirection) → state.synced d ≡ synced_at params net x y d)
      → ((d : SyncDirection) → state.sent_directions d ≡ sent_at net x y d)
      → Marks params (view_of net) (view_of (put_state net x y (mark_completed params x y state)))
  mark-Marks net x y state inv ended grows synced sent =
      let after = mark_completed params x y state in
      let facts = λ (d : SyncDirection). mark_completed_lem params x y state d in
      record {
        seen = λ cx cy h. put_state-seen net x y after cx cy (λ s. (facts to_n).0 ∙ grows s) h;
        synced = λ cx cy d.
            untouched (λ a b. synced_at params net a b d) x y cx cy (after.synced d) _
              (synced_at-put_state params net x y after cx cy d) ((facts d).1 ∙ synced d);
        sent = λ cx cy d.
            untouched (λ a b. sent_at net a b d) x y cx cy (after.sent_directions d) _
              (sent_at-put_state params net x y after cx cy d) ((facts d).2 ∙ sent d);
        link = λ cx cy d. link_at-put_state params net x y after cx cy d;
        done = λ cx cy d f.
            put_state-Ended net x y after cx cy d inv (mark_completed-Ended x y state ended)
              (λ s. (facts to_n).0 ∙ grows s) (λ s. (facts d).1 ∙ synced d ∙ s) f;
      }
