-- ===== src/Network/Sync/Protocol/Sending.antt =====
-- The sending of a packet keeps what is known true.
use zamlet.Common.{
  ℕ, Bool, true, false, ◌&&◌, ◌||◌, ◌≡◌, refl, sym, ◌∙◌, arith, some, List, [], ◌∷◌,
}
use zamlet.Params.{ZamletParams}
use zamlet.Network.Sync.Grid.{
  SyncDirection, same_direction, shift, is_place, has_neighbor, get_send_requirements,
}
use zamlet.Network.Sync.Grid.Regions.{opposite, covers, covers-send, AllSeen}
use zamlet.Network.Sync.Protocol.{same_place}
use zamlet.Network.Sync.Protocol.Same.{same_place-eq, same_link-eq, or-cases}
use zamlet.Network.Sync.State.{all_of}
use zamlet.Network.Sync.Protocol.Safety.{View, Inv}

module _ (params : ZamletParams) where
  -- The place (px, py) sends a packet in direction `pd`.
  pub record Sends (v w : View) (px py : ℕ) (pd : SyncDirection) : Type 0 where
    pub place : is_place params px py ≡ true
    pub near : has_neighbor params px py pd ≡ true
    pub first : v.sent px py pd ≡ false
    pub own : v.seen px py ≡ true
    pub regions : all_of (v.synced px py) (get_send_requirements px py pd) ≡ true
    pub seen : (x y : ℕ) → w.seen x y ≡ v.seen x y
    pub synced : (x y : ℕ) (d : SyncDirection) → w.synced x y d ≡ v.synced x y d
    pub sent :
        (x y : ℕ) (d : SyncDirection)
        → w.sent x y d ≡ (same_place px py x y && same_direction pd d || v.sent x y d)
    pub link :
        (x y : ℕ) (d : SyncDirection)
        → w.link x y d ≡ (same_place px py x y && same_direction pd d || v.link x y d)
    pub done : (x y : ℕ) → w.done x y ≡ v.done x y

  AllSeen-all_of :
      (p : SyncDirection → Bool) (region : SyncDirection → Bool) (seen : Bool)
      (ds : List SyncDirection)
      → all_of p ds ≡ true
      → ((d : SyncDirection) → p d ≡ true → region d ≡ true → seen ≡ true)
      → AllSeen params ds region seen
  AllSeen-all_of p region seen [] all h = tt
  AllSeen-all_of p region seen (d ∷ ds) all h =
      (h d (ground arith), AllSeen-all_of p region seen ds (ground arith) h)

  flying_new :
      (v : View) (px py : ℕ) (pd : SyncDirection) (qx qy cx cy : ℕ)
      → Inv params v
      → is_place params px py ≡ true
      → has_neighbor params px py pd ≡ true
      → v.seen px py ≡ true
      → all_of (v.synced px py) (get_send_requirements px py pd) ≡ true
      → shift pd px py ≡ some (qx, qy)
      → is_place params cx cy ≡ true
      → covers (opposite pd) qx qy cx cy ≡ true
      → v.seen cx cy ≡ true
  flying_new v px py pd qx qy cx cy inv place near own regions e cell region =
      covers-send params pd px py qx qy cx cy (v.seen cx cy) place cell near e
        (AllSeen-all_of (v.synced px py) (λ r. covers r px py cx cy) (v.seen cx cy)
          (get_send_requirements px py pd) regions
          (λ d s r. inv.known px py d cx cy place cell s r))
        (λ h. let (ex, ey) = same_place-eq px py cx cy h in rw (ex, ey) own) region

  pub Sends-Inv :
      (v w : View) (px py : ℕ) (pd : SyncDirection)
      → Sends v w px py pd
      → Inv params v
      → Inv params w
  Sends-Inv v w px py pd m inv = record {
    known = λ x y d cx cy p c s r.
        m.seen cx cy ∙ inv.known x y d cx cy p c (sym (m.synced x y d) ∙ s) r;
    flying = λ x y d qx qy cx cy l e c r.
        m.seen cx cy
        ∙ or-cases (hit x y d) (v.link x y d) (w.link x y d) (m.link x y d) l
            (λ h.
              let (ex, ey, ed) = same_link-eq px py pd x y d h in
              flying_new v px py pd qx qy cx cy inv m.place m.near m.own m.regions
                (rw (ex, ey, ed) at e) c (rw ed at r))
            (λ l'. inv.flying x y d qx qy cx cy l' e c r);
    linked = λ x y d l.
        or-cases (hit x y d) (v.link x y d) (w.link x y d) (m.link x y d) l
          (λ h.
            let (ex, ey, ed) = same_link-eq px py pd x y d h in
            (rw (ex, ey) m.place, rw (ex, ey, ed) m.near, m.sent x y d ∙ rw h refl))
          (λ l'. let (a, b, c) = inv.linked x y d l' in (a, b, kept x y d c));
    waiting = λ x y d qx qy l e.
        m.synced qx qy (opposite d)
        ∙ or-cases (hit x y d) (v.link x y d) (w.link x y d) (m.link x y d) l
            (λ h.
              let (ex, ey, ed) = same_link-eq px py pd x y d h in
              not_told (v.synced qx qy (opposite d)) (λ s.
                sym m.first
                ∙ inv.told px py pd qx qy m.place m.near (rw (ex, ey, ed) at e) (rw ed at s)))
            (λ l'. inv.waiting x y d qx qy l' e);
    told = λ x y d qx qy p n e s.
        kept x y d (inv.told x y d qx qy p n e (sym (m.synced qx qy (opposite d)) ∙ s));
    ended = λ x y d f.
        let (a, b) = inv.ended x y d (sym (m.done x y) ∙ f) in (m.seen x y ∙ a, m.synced x y d ∙ b);
  }
    where
      hit : ℕ → ℕ → SyncDirection → Bool
      hit x y d = same_place px py x y && same_direction pd d

      or_true : (b : Bool) → (b || true) ≡ true
      or_true true = refl
      or_true false = refl

      kept : (x y : ℕ) (d : SyncDirection) → v.sent x y d ≡ true → w.sent x y d ≡ true
      kept x y d s = m.sent x y d ∙ rw s (or_true (hit x y d))

      not_told : (b : Bool) → (b ≡ true → false ≡ true) → b ≡ false
      not_told true h = (let e = h refl in cc)
      not_told false h = refl
