-- ===== src/Network/Sync/Protocol/Quiescence.antt =====
-- Where all places saw the event and no packet can move, every region is synchronized.
use zamlet.Common.{
  ℕ, zero, suc, ◌<◌, Bool-cases, inl, inr, true, false, ◌≡◌, refl, arith, List, [], ◌∷◌,
}
use zamlet.Params.{ZamletParams}
use zamlet.Network.Sync.Grid.{SyncDirection, is_place, has_neighbor, get_send_requirements}
use zamlet.Network.Sync.Grid.Order.{
  distance, AllBelow, has_neighbor-shift, get_send_requirements-distance,
}
use zamlet.Network.Sync.Grid.Regions.{opposite, has_neighbor-opposite}
use zamlet.Network.Sync.State.{all_of}
use zamlet.Network.Sync.Protocol.Safety.{View}
use zamlet.Network.Sync.Protocol.Same.{opposite-opposite}
use zamlet.Network.Sync.Protocol.Delivery.{Delivers}

module _ (params : ZamletParams) (v : View) (inv : Delivers params v) where
  module _ (still : (x y : ℕ) (d : SyncDirection) → v.link x y d ≡ false)
      (stuck : (x y : ℕ) (d : SyncDirection)
        → is_place params x y ≡ true
        → has_neighbor params x y d ≡ true
        → all_of (v.synced x y) (get_send_requirements x y d) ≡ true
        → v.sent x y d ≡ true) where
    all_of-AllBelow :
        (n : ℕ) (x y : ℕ) (rs : List SyncDirection)
        → AllBelow params n x y rs
        → ((r : SyncDirection)
            → has_neighbor params x y r ≡ true
            → distance params r x y < n
            → v.synced x y r ≡ true)
        → all_of (v.synced x y) rs ≡ true
    all_of-AllBelow n x y [] below known = refl
    all_of-AllBelow n x y (r ∷ rs) (first, rest) known =
        let now = elim (Bool-cases (has_neighbor params x y r)) as (λ _. v.synced x y r ≡ true) [
          | inl near ↦ known r near (first near)
          | inr alone ↦ inv.absent x y r alone
        ] in
        rw now (all_of-AllBelow n x y rs rest known)

    synced_from :
        (n : ℕ) (x y : ℕ) (d : SyncDirection)
        → is_place params x y ≡ true
        → has_neighbor params x y d ≡ true
        → distance params d x y < n
        → v.synced x y d ≡ true
    synced_from zero x y d place near within = absurd (omega arith)
    synced_from (suc n) x y d place near within =
        let (qx, qy, e) = has_neighbor-shift params x y d near in
        let (q_place, back, e') = has_neighbor-opposite params d x y qx qy place near e in
        let asked =
          all_of-AllBelow (distance params d x y) qx qy (get_send_requirements qx qy (opposite d))
            (get_send_requirements-distance params d x y qx qy place near e)
            (λ r r_near r_below. synced_from n qx qy r q_place r_near (omega arith)) in
        let arrived =
          inv.delivered qx qy (opposite d) x y (stuck qx qy (opposite d) q_place back asked) e' in
        rw (still qx qy (opposite d), opposite-opposite d) at arrived

    pub synced_everywhere :
        (x y : ℕ) (d : SyncDirection) → is_place params x y ≡ true → v.synced x y d ≡ true
    synced_everywhere x y d place = elim (Bool-cases (has_neighbor params x y d)) [
      | inl near ↦ synced_from (suc (distance params d x y)) x y d place near (omega arith)
      | inr alone ↦ inv.absent x y d alone
    ]
