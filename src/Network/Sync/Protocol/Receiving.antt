-- ===== src/Network/Sync/Protocol/Receiving.antt =====
-- The receiving of a packet keeps what is known true.
use zamlet.Common.{ℕ, Bool, true, false, ◌&&◌, ◌||◌, not, ◌≡◌, refl, sym, ◌∙◌, arith, some}
use zamlet.Params.{ZamletParams}
use zamlet.Network.Sync.Grid.{SyncDirection, same_direction, shift, is_place, has_neighbor}
use zamlet.Network.Sync.Grid.Regions.{opposite}
use zamlet.Network.Sync.Protocol.{same_place}
use zamlet.Network.Sync.Protocol.Same.{same_link-eq, same_sender, or-cases, and-parts}
use zamlet.Network.Sync.Protocol.Safety.{View, Inv}

module _ (params : ZamletParams) where
  -- Its receiver takes it.
  pub record Gets (v w : View) (px py : ℕ) (pd : SyncDirection) (rx ry : ℕ) : Type 0 where
    pub flies : v.link px py pd ≡ true
    pub to : shift pd px py ≡ some (rx, ry)
    pub seen : (x y : ℕ) → w.seen x y ≡ v.seen x y
    pub synced :
        (x y : ℕ) (d : SyncDirection)
        → w.synced x y d
          ≡ (same_place rx ry x y && same_direction (opposite pd) d || v.synced x y d)
    pub sent : (x y : ℕ) (d : SyncDirection) → w.sent x y d ≡ v.sent x y d
    pub link :
        (x y : ℕ) (d : SyncDirection)
        → w.link x y d ≡ (not (same_place px py x y && same_direction pd d) && v.link x y d)
    pub done :
        (x y : ℕ) (d : SyncDirection)
        → w.done x y ≡ true
        → (w.seen x y ≡ true) × (w.synced x y d ≡ true)

  pub Gets-Inv :
      (v w : View) (px py : ℕ) (pd : SyncDirection) (rx ry : ℕ)
      → Gets v w px py pd rx ry
      → Inv params v
      → Inv params w
  Gets-Inv v w px py pd rx ry m inv = record {
    known = λ x y d cx cy p c s r.
        m.seen cx cy
        ∙ or-cases (taken x y d) (v.synced x y d) (w.synced x y d) (m.synced x y d) s
            (λ h.
              let (ex, ey, ed) = same_link-eq rx ry (opposite pd) x y d h in
              inv.flying px py pd rx ry cx cy m.flies m.to c (rw (ex, ey, ed) at r))
            (λ s'. inv.known x y d cx cy p c s' r);
    flying = λ x y d qx qy cx cy l e c r.
        m.seen cx cy ∙ inv.flying x y d qx qy cx cy (open_link x y d l).1 e c r;
    linked = λ x y d l.
        let (a, b, c) = inv.linked x y d (open_link x y d l).1 in (a, b, m.sent x y d ∙ c);
    waiting = λ x y d qx qy l e.
        m.synced qx qy (opposite d)
        ∙ other x y d qx qy (open_link x y d l) e (taken qx qy (opposite d))
            (v.synced qx qy (opposite d)) (inv.waiting x y d qx qy (open_link x y d l).1 e)
            (λ h. sender x y d qx qy (ends x y d (open_link x y d l).1) e h);
    told = λ x y d qx qy p n e s.
        m.sent x y d
        ∙ or-cases (taken qx qy (opposite d)) (v.synced qx qy (opposite d))
            (w.synced qx qy (opposite d)) (m.synced qx qy (opposite d)) s
            (λ h.
              let (ex, ey, ed) = sender x y d qx qy (p, n) e h in
              rw (ex, ey, ed) (inv.linked px py pd m.flies).2)
            (λ s'. inv.told x y d qx qy p n e s');
    ended = m.done;
  }
    where
      taken : ℕ → ℕ → SyncDirection → Bool
      taken x y d = same_place rx ry x y && same_direction (opposite pd) d

      open_link :
          (x y : ℕ) (d : SyncDirection)
          → w.link x y d ≡ true
          → (not (same_place px py x y && same_direction pd d) ≡ true) × (v.link x y d ≡ true)
      open_link x y d l = and-parts _ _ (sym (m.link x y d) ∙ l)

      ends :
          (x y : ℕ) (d : SyncDirection)
          → v.link x y d ≡ true
          → (is_place params x y ≡ true) × (has_neighbor params x y d ≡ true)
      ends x y d l = let (a, b, _) = inv.linked x y d l in (a, b)

      sender :
          (x y : ℕ) (d : SyncDirection) (qx qy : ℕ)
          → (is_place params x y ≡ true) × (has_neighbor params x y d ≡ true)
          → shift d x y ≡ some (qx, qy)
          → taken qx qy (opposite d) ≡ true
          → (x ≡ px) × (y ≡ py) × (d ≡ pd)
      sender x y d qx qy near e h =
          same_sender params px py pd rx ry x y d qx qy (ends px py pd m.flies) m.to near e h

      apart :
          (x y : ℕ) (d : SyncDirection)
          → (x ≡ px) × (y ≡ py) × (d ≡ pd)
          → not (same_place px py x y && same_direction pd d) ≡ true
          → false ≡ true
      apart x y d (ex, ey, ed) h = let h' = rw (ex, ey, ed) at h in ground arith

      other :
          (x y : ℕ) (d : SyncDirection) (qx qy : ℕ)
          → (not (same_place px py x y && same_direction pd d) ≡ true) × (v.link x y d ≡ true)
          → shift d x y ≡ some (qx, qy)
          → (t s : Bool) → s ≡ false
          → (t ≡ true → (x ≡ px) × (y ≡ py) × (d ≡ pd))
          → (t || s) ≡ false
      other x y d qx qy l e true s f h = (let e = apart x y d (h refl) (l.0) in cc)
      other x y d qx qy l e false s f h = f
