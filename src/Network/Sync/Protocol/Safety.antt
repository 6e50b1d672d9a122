-- ===== src/Network/Sync/Protocol/Safety.antt =====
-- What a place knows of the synchronization is true: kept by every step, by what the places show.
use zamlet.Common.{ℕ, Bool, true, false, ◌≡◌, sym, ◌∙◌, some}
use zamlet.Params.{ZamletParams}
use zamlet.Network.Sync.Grid.{SyncDirection, shift, is_place, has_neighbor}
use zamlet.Network.Sync.Grid.Regions.{opposite, covers}

-- The places' views, of one moment.
pub record View : Type 0 where
  pub seen : ℕ → ℕ → Bool
  pub synced : ℕ → ℕ → SyncDirection → Bool
  pub sent : ℕ → ℕ → SyncDirection → Bool
  pub done : ℕ → ℕ → Bool
  pub link : ℕ → ℕ → SyncDirection → Bool

module _ (params : ZamletParams) where
  pub record Inv (v : View) : Type 0 where
    -- A synchronized region has only places that saw the event.
    pub known :
        (x y : ℕ) (d : SyncDirection) (cx cy : ℕ)
        → is_place params x y ≡ true
        → is_place params cx cy ≡ true
        → v.synced x y d ≡ true
        → covers d x y cx cy ≡ true
        → v.seen cx cy ≡ true
    -- So has the region that a packet in flight tells of.
    pub flying :
        (x y : ℕ) (d : SyncDirection) (qx qy cx cy : ℕ)
        → v.link x y d ≡ true
        → shift d x y ≡ some (qx, qy)
        → is_place params cx cy ≡ true
        → covers (opposite d) qx qy cx cy ≡ true
        → v.seen cx cy ≡ true
    pub linked :
        (x y : ℕ) (d : SyncDirection)
        → v.link x y d ≡ true
        → (is_place params x y ≡ true) × (has_neighbor params x y d ≡ true) × (v.sent x y d ≡ true)
    -- The receiver of a packet in flight waits for it.
    pub waiting :
        (x y : ℕ) (d : SyncDirection) (qx qy : ℕ)
        → v.link x y d ≡ true
        → shift d x y ≡ some (qx, qy)
        → v.synced qx qy (opposite d) ≡ false
    -- Only the packet synchronizes a region.
    pub told :
        (x y : ℕ) (d : SyncDirection) (qx qy : ℕ)
        → is_place params x y ≡ true
        → has_neighbor params x y d ≡ true
        → shift d x y ≡ some (qx, qy)
        → v.synced qx qy (opposite d) ≡ true
        → v.sent x y d ≡ true
    pub ended :
        (x y : ℕ) (d : SyncDirection)
        → v.done x y ≡ true
        → (v.seen x y ≡ true) × (v.synced x y d ≡ true)

  -- A place sees the event or finds itself done.
  pub record Marks (v w : View) : Type 0 where
    pub seen : (x y : ℕ) → v.seen x y ≡ true → w.seen x y ≡ true
    pub synced : (x y : ℕ) (d : SyncDirection) → w.synced x y d ≡ v.synced x y d
    pub sent : (x y : ℕ) (d : SyncDirection) → w.sent x y d ≡ v.sent x y d
    pub link : (x y : ℕ) (d : SyncDirection) → w.link x y d ≡ v.link x y d
    pub done :
        (x y : ℕ) (d : SyncDirection)
        → w.done x y ≡ true
        → (w.seen x y ≡ true) × (w.synced x y d ≡ true)

  pub Marks-Inv : (v w : View) → Marks v w → Inv v → Inv w
  Marks-Inv v w m inv = record {
    known = λ x y d cx cy p c s r.
        m.seen cx cy (inv.known x y d cx cy p c (sym (m.synced x y d) ∙ s) r);
    flying = λ x y d qx qy cx cy l e c r.
        m.seen cx cy (inv.flying x y d qx qy cx cy (sym (m.link x y d) ∙ l) e c r);
    linked = λ x y d l.
        let (a, b, c) = inv.linked x y d (sym (m.link x y d) ∙ l) in (a, b, m.sent x y d ∙ c);
    waiting = λ x y d qx qy l e.
        m.synced qx qy (opposite d) ∙ inv.waiting x y d qx qy (sym (m.link x y d) ∙ l) e;
    told = λ x y d qx qy p n e s.
        m.sent x y d ∙ inv.told x y d qx qy p n e (sym (m.synced qx qy (opposite d)) ∙ s);
    ended = m.done;
  }
