-- ===== src/Network/Sync/Protocol/Delivery.antt =====
-- What was sent arrives: kept by every step, by what the places show.
use zamlet.Common.{
  ℕ, Bool, Bool-cases, inl, inr, true, false, ◌&&◌, ◌||◌, ◌≡◌, refl, sym, ◌∙◌, arith, some,
}
use zamlet.Params.{ZamletParams}
use zamlet.Network.Sync.Grid.{SyncDirection, same_direction, shift, has_neighbor}
use zamlet.Network.Sync.Grid.Regions.{opposite}
use zamlet.Network.Sync.Protocol.{same_place}
use zamlet.Network.Sync.Protocol.Safety.{View, Marks}
use zamlet.Network.Sync.Protocol.Sending.{Sends}
use zamlet.Network.Sync.Protocol.Receiving.{Gets}
use zamlet.Network.Sync.Protocol.Same.{same_link-eq, or-cases, some_pair}

or_left : (a b : Bool) → a ≡ true → (a || b) ≡ true
or_left true b h = refl
or_left false b h = cc

pub or_right : (a b : Bool) → b ≡ true → (a || b) ≡ true
or_right true b h = refl
or_right false b h = h

same_link_refl : (x y : ℕ) (d : SyncDirection) → same_place x y x y && same_direction d d ≡ true
same_link_refl x y d = ground arith

module _ (params : ZamletParams) where
  pub record Delivers (v : View) : Type 0 where
    -- A region that does not exist is synchronized from the start.
    pub absent :
        (x y : ℕ) (d : SyncDirection) → has_neighbor params x y d ≡ false → v.synced x y d ≡ true
    -- A packet that was sent is in flight or was taken.
    pub delivered :
        (x y : ℕ) (d : SyncDirection) (qx qy : ℕ)
        → v.sent x y d ≡ true
        → shift d x y ≡ some (qx, qy)
        → (v.link x y d || v.synced qx qy (opposite d)) ≡ true

  pub Marks-Delivers : (v w : View) → Marks params v w → Delivers v → Delivers w
  Marks-Delivers v w m inv = record {
    absent = λ x y d n. m.synced x y d ∙ inv.absent x y d n;
    delivered = λ x y d qx qy s e.
        rw (m.link x y d, m.synced qx qy (opposite d))
          (inv.delivered x y d qx qy (sym (m.sent x y d) ∙ s) e);
  }

  pub Sends-Delivers :
      (v w : View) (px py : ℕ) (pd : SyncDirection)
      → Sends params v w px py pd
      → Delivers v
      → Delivers w
  Sends-Delivers v w px py pd m inv = record {
    absent = λ x y d n. m.synced x y d ∙ inv.absent x y d n;
    delivered = λ x y d qx qy s e.
        or-cases (same_place px py x y && same_direction pd d) (v.sent x y d) (w.sent x y d)
          (m.sent x y d) s
          (λ h. or_left (w.link x y d) (w.synced qx qy (opposite d)) (m.link x y d ∙ rw h refl))
          (λ s'.
            or-cases (v.link x y d) (v.synced qx qy (opposite d)) true
              (sym (inv.delivered x y d qx qy s' e)) refl
              (λ l. or_left (w.link x y d) (w.synced qx qy (opposite d)) (
                m.link x y d
                ∙ or_right (same_place px py x y && same_direction pd d) (v.link x y d) l))
              (λ t.
                or_right (w.link x y d) (w.synced qx qy (opposite d))
                  (m.synced qx qy (opposite d) ∙ t)));
  }

  pub Gets-Delivers :
      (v w : View) (px py : ℕ) (pd : SyncDirection) (rx ry : ℕ)
      → Gets params v w px py pd rx ry
      → Delivers v
      → Delivers w
  Gets-Delivers v w px py pd rx ry m inv = record {
    absent = λ x y d n. kept x y d (inv.absent x y d n);
    delivered = λ x y d qx qy s e.
        or-cases (v.link x y d) (v.synced qx qy (opposite d)) true
          (sym (inv.delivered x y d qx qy (sym (m.sent x y d) ∙ s) e)) refl
          (λ l. elim (Bool-cases (same_place px py x y && same_direction pd d)) [
            | inl h ↦ or_right (w.link x y d) (w.synced qx qy (opposite d)) (taken x y d qx qy h e)
            | inr h ↦
                or_left (w.link x y d) (w.synced qx qy (opposite d)) (m.link x y d ∙ rw (h, l) refl)
          ])
          (λ t. or_right (w.link x y d) (w.synced qx qy (opposite d)) (kept qx qy (opposite d) t));
  }
    where
      kept : (x y : ℕ) (d : SyncDirection) → v.synced x y d ≡ true → w.synced x y d ≡ true
      kept x y d s =
          m.synced x y d
          ∙ or_right (same_place rx ry x y && same_direction (opposite pd) d) (v.synced x y d) s

      taken :
          (x y : ℕ) (d : SyncDirection) (qx qy : ℕ)
          → same_place px py x y && same_direction pd d ≡ true
          → shift d x y ≡ some (qx, qy)
          → w.synced qx qy (opposite d) ≡ true
      taken x y d qx qy h e =
          let (ex, ey, ed) = same_link-eq px py pd x y d h in
          let to_pair = some_pair (sym (rw (ex, ey, ed) at e) ∙ m.to) in
          rw (ed, to_pair.0, to_pair.1)
            (m.synced rx ry (opposite pd) ∙ or_left _ _ (same_link_refl rx ry (opposite pd)))
