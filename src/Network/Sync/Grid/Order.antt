-- ===== src/Network/Sync/Grid/Order.antt =====
-- The order in which the regions become known: what a neighbour waits for before it tells of a
-- region is nearer to the border on that side.
use zamlet.Common.{
  ℕ, zero, suc, ◌+◌, ◌*◌, ◌-◌, ◌<◌, ◌≡◌, refl, arith, ◌==◌, if◌then◌else◌, Bool-cases, inl, inr,
  true, false, ◌&&◌, Option, none, some, List, [], ◌∷◌,
}
use zamlet.Params.{ZamletParams}
use zamlet.Network.Sync.Grid.{
  SyncDirection, to_n, to_s, to_e, to_w, to_ne, to_nw, to_se, to_sw, shift, is_place, seen_from,
  has_neighbor, send_requirements, send_requirements_origin, get_send_requirements,
}
use zamlet.Network.Sync.Grid.Regions.{opposite}

-- A place with a neighbour has the neighbour's place.
pub has_neighbor-shift :
    (params : ZamletParams) (x y : ℕ) (d : SyncDirection)
    → has_neighbor params x y d ≡ true
    → (qx : ℕ) × (qy : ℕ) × (shift d x y ≡ some (qx, qy))
unfolding has_neighbor
has_neighbor-shift params x y d near = by_place (shift d x y) near
  where
    by_place :
        (o : Option (ℕ × ℕ))
        → seen_from params y o ≡ true
        → (qx : ℕ) × (qy : ℕ) × (o ≡ some (qx, qy))
    by_place none h = cc
    by_place (some (qx, qy)) h = (qx, qy, refl)

module _ (params : ZamletParams) where
  open params use {k_cols, k_rows}

  abbrev pub distance : SyncDirection → ℕ → ℕ → ℕ
  distance to_n x y = y
  distance to_s x y = if y == 0 then 2 * k_cols + k_rows + 1 else k_rows - y
  distance to_e x y = k_cols - x
  distance to_w x y = 2 * x
  distance to_ne x y = y + (k_cols - x)
  distance to_nw x y = y + 2 * x
  distance to_se x y = (k_rows - y) + (k_cols - x)
  distance to_sw x y = (k_rows - y) + 2 * x

  abbrev pub AllBelow : ℕ → ℕ → ℕ → List SyncDirection → Type 0
  AllBelow n x y [] = Unit {0}
  AllBelow n x y (r ∷ rs) =
      (has_neighbor params x y r ≡ true → distance r x y < n) × AllBelow n x y rs

  ordinary_below :
      (d : SyncDirection) (x y qx qy : ℕ)
      → is_place params x y ≡ true
      → has_neighbor params x y d ≡ true
      → shift d x y ≡ some (qx, qy)
      → qx == 0 && qy == 1 ≡ false
      → AllBelow (distance d x y) qx qy (send_requirements (opposite d))
  unfolding has_neighbor
  ordinary_below to_n x zero qx qy place near e other = ground arith
  ordinary_below to_n x (suc y) qx qy place near e other = ground arith
  ordinary_below to_s x zero qx qy place near e other = ground arith
  ordinary_below to_s x (suc y) qx qy place near e other = ground arith
  ordinary_below to_e x y qx qy place near e other = ground arith
  ordinary_below to_w zero y qx qy place near e other = ground arith
  ordinary_below to_w (suc x) y qx qy place near e other = ground arith
  ordinary_below to_ne x zero qx qy place near e other = ground arith
  ordinary_below to_ne x (suc y) qx qy place near e other = ground arith
  ordinary_below to_nw zero y qx qy place near e other = ground arith
  ordinary_below to_nw (suc x) zero qx qy place near e other = ground arith
  ordinary_below to_nw (suc x) (suc zero) qx qy place near e other = ground arith
  ordinary_below to_nw (suc x) (suc (suc y)) qx qy place near e other = ground arith
  ordinary_below to_se x zero qx qy place near e other = ground arith
  ordinary_below to_se x (suc y) qx qy place near e other = ground arith
  ordinary_below to_sw zero y qx qy place near e other = ground arith
  ordinary_below to_sw (suc x) zero qx qy place near e other = ground arith
  ordinary_below to_sw (suc x) (suc y) qx qy place near e other = ground arith

  origin_below :
      (d : SyncDirection) (x y qx qy : ℕ)
      → is_place params x y ≡ true
      → has_neighbor params x y d ≡ true
      → shift d x y ≡ some (qx, qy)
      → qx == 0 && qy == 1 ≡ true
      → AllBelow (distance d x y) qx qy (send_requirements_origin (opposite d))
  unfolding has_neighbor
  origin_below to_n x zero qx qy place near e origin = ground arith
  origin_below to_n x (suc y) qx qy place near e origin = ground arith
  origin_below to_s x zero qx qy place near e origin = ground arith
  origin_below to_s x (suc y) qx qy place near e origin = ground arith
  origin_below to_e x y qx qy place near e origin = ground arith
  origin_below to_w zero y qx qy place near e origin = ground arith
  origin_below to_w (suc x) y qx qy place near e origin = ground arith
  origin_below to_ne x zero qx qy place near e origin = ground arith
  origin_below to_ne x (suc y) qx qy place near e origin = ground arith
  origin_below to_nw zero y qx qy place near e origin = ground arith
  origin_below to_nw (suc x) zero qx qy place near e origin = ground arith
  origin_below to_nw (suc x) (suc y) qx qy place near e origin = ground arith
  origin_below to_se x zero qx qy place near e origin = ground arith
  origin_below to_se x (suc y) qx qy place near e origin = ground arith
  origin_below to_sw zero y qx qy place near e origin = ground arith
  origin_below to_sw (suc x) zero qx qy place near e origin = ground arith
  origin_below to_sw (suc x) (suc y) qx qy place near e origin = ground arith

  pub get_send_requirements-distance :
      (d : SyncDirection) (x y qx qy : ℕ)
      → is_place params x y ≡ true
      → has_neighbor params x y d ≡ true
      → shift d x y ≡ some (qx, qy)
      → AllBelow (distance d x y) qx qy (get_send_requirements qx qy (opposite d))
  get_send_requirements-distance d x y qx qy place near e = elim (Bool-cases (qx == 0 && qy == 1)) [
    | inl origin ↦ rw origin (origin_below d x y qx qy place near e origin)
    | inr other ↦ rw other (ordinary_below d x y qx qy place near e other)
  ]
