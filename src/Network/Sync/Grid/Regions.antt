-- ===== src/Network/Sync/Grid/Regions.antt =====
-- The places that a region of the synchronization network stands for.
use zamlet.Common.{
  ℕ, zero, suc, ◌≡◌, arith, ◌==◌, ltb, if◌then◌else◌, Bool, Bool-cases, inl, inr, true, false, ◌&&◌,
  ◌||◌, some, List, [], ◌∷◌,
}
use zamlet.Params.{ZamletParams}
use zamlet.Network.Sync.Grid.{
  SyncDirection, to_n, to_s, to_e, to_w, to_ne, to_nw, to_se, to_sw, shift, is_place, has_neighbor,
  send_requirements, send_requirements_origin, get_send_requirements,
}

abbrev pub opposite : SyncDirection → SyncDirection
opposite to_n = to_s
opposite to_s = to_n
opposite to_e = to_w
opposite to_w = to_e
opposite to_ne = to_sw
opposite to_nw = to_se
opposite to_se = to_nw
opposite to_sw = to_ne

-- Whether the region in direction `d` of the place (x, y) has the place (cx, cy). All kamlets are
-- south of the lamlet. The lamlet is west of the first row, and north-west of the places that the
-- first column or row can tell of it.
abbrev pub covers : SyncDirection → ℕ → ℕ → ℕ → ℕ → Bool
covers to_n x y cx cy = cx == x && ltb cy y
covers to_s x y cx cy = if y == 0 then ltb 0 cy else cx == x && ltb y cy
covers to_e x y cx cy = cy == y && ltb x cx
covers to_w x y cx cy = cy == y && ltb cx x || y == 1 && ltb 0 x && cx == 0 && cy == 0
covers to_ne x y cx cy = ltb x cx && ltb cy y
covers to_nw x y cx cy = ltb cx x && ltb cy y && (ltb 0 cy || ltb 1 y || x == 1)
covers to_se x y cx cy = ltb x cx && ltb y cy
covers to_sw x y cx cy = ltb cx x && ltb y cy

module _ (params : ZamletParams) where
  -- Every other place of the network is in one of the regions.
  pub covers_all :
      (x y cx cy : ℕ) (seen : Bool)
      → is_place params x y ≡ true
      → is_place params cx cy ≡ true
      → ((d : SyncDirection) → covers d x y cx cy ≡ true → seen ≡ true)
      → (cx == x && cy == y ≡ true → seen ≡ true)
      → seen ≡ true
  covers_all x y cx cy seen place cell regions here = ground (
    arith,
    regions to_n,
    regions to_s,
    regions to_e,
    regions to_w,
    regions to_ne,
    regions to_nw,
    regions to_se,
    regions to_sw,
  )

  -- A region without a neighbour in its direction is empty.
  pub covers-has_neighbor :
      (d : SyncDirection) (x y cx cy : ℕ)
      → is_place params x y ≡ true
      → is_place params cx cy ≡ true
      → has_neighbor params x y d ≡ false
      → covers d x y cx cy ≡ false
  unfolding has_neighbor
  covers-has_neighbor to_n x zero cx cy place cell alone = ground arith
  covers-has_neighbor to_n x (suc y) cx cy place cell alone = ground arith
  covers-has_neighbor to_s x zero cx cy place cell alone = ground arith
  covers-has_neighbor to_s x (suc y) cx cy place cell alone = ground arith
  covers-has_neighbor to_e x zero cx cy place cell alone = ground arith
  covers-has_neighbor to_e x (suc y) cx cy place cell alone = ground arith
  covers-has_neighbor to_w zero y cx cy place cell alone = ground arith
  covers-has_neighbor to_w (suc x) zero cx cy place cell alone = ground arith
  covers-has_neighbor to_w (suc x) (suc y) cx cy place cell alone = ground arith
  covers-has_neighbor to_ne x zero cx cy place cell alone = ground arith
  covers-has_neighbor to_ne x (suc y) cx cy place cell alone = ground arith
  covers-has_neighbor to_nw zero y cx cy place cell alone = ground arith
  covers-has_neighbor to_nw (suc x) zero cx cy place cell alone = ground arith
  covers-has_neighbor to_nw (suc x) (suc y) cx cy place cell alone = ground arith
  covers-has_neighbor to_se x zero cx cy place cell alone = ground arith
  covers-has_neighbor to_se x (suc y) cx cy place cell alone = ground arith
  covers-has_neighbor to_sw zero y cx cy place cell alone = ground arith
  covers-has_neighbor to_sw (suc x) zero cx cy place cell alone = ground arith
  covers-has_neighbor to_sw (suc x) (suc y) cx cy place cell alone = ground arith

  -- What the sender `p` of a packet in direction `d` knows is what the packet tells its receiver
  -- about the region that it comes from.
  abbrev pub AllSeen : List SyncDirection → (SyncDirection → Bool) → Bool → Type 0
  AllSeen [] region seen = Unit {0}
  AllSeen (d ∷ ds) region seen = (region d ≡ true → seen ≡ true) × AllSeen ds region seen

  ordinary_send :
      (d : SyncDirection) (x y qx qy cx cy : ℕ) (seen : Bool)
      → is_place params x y ≡ true
      → is_place params cx cy ≡ true
      → has_neighbor params x y d ≡ true
      → shift d x y ≡ some (qx, qy)
      → x == 0 && y == 1 ≡ false
      → AllSeen (send_requirements d) (λ r. covers r x y cx cy) seen
      → (cx == x && cy == y ≡ true → seen ≡ true)
      → covers (opposite d) qx qy cx cy ≡ true
      → seen ≡ true
  unfolding has_neighbor
  ordinary_send to_n x zero qx qy cx cy seen place cell near e other known here region =
      ground arith
  ordinary_send to_n x (suc y) qx qy cx cy seen place cell near e other known here region =
      ground arith
  ordinary_send to_s x y qx qy cx cy seen place cell near e other known here region = ground arith
  ordinary_send to_e x y qx qy cx cy seen place cell near e other known here region = ground arith
  ordinary_send to_w zero y qx qy cx cy seen place cell near e other known here region =
      ground arith
  ordinary_send to_w (suc x) y qx qy cx cy seen place cell near e other known here region =
      ground arith
  ordinary_send to_ne x zero qx qy cx cy seen place cell near e other known here region =
      ground arith
  ordinary_send to_ne x (suc y) qx qy cx cy seen place cell near e other known here region =
      ground arith
  ordinary_send to_nw zero y qx qy cx cy seen place cell near e other known here region =
      ground arith
  ordinary_send to_nw (suc x) zero qx qy cx cy seen place cell near e other known here region =
      ground arith
  ordinary_send to_nw (suc x) (suc y) qx qy cx cy seen place cell near e other known here region =
      ground arith
  ordinary_send to_se x y qx qy cx cy seen place cell near e other known here region = ground arith
  ordinary_send to_sw zero y qx qy cx cy seen place cell near e other known here region =
      ground arith
  ordinary_send to_sw (suc x) y qx qy cx cy seen place cell near e other known here region =
      ground arith

  origin_send :
      (d : SyncDirection) (x y qx qy cx cy : ℕ) (seen : Bool)
      → is_place params x y ≡ true
      → is_place params cx cy ≡ true
      → has_neighbor params x y d ≡ true
      → shift d x y ≡ some (qx, qy)
      → x == 0 && y == 1 ≡ true
      → AllSeen (send_requirements_origin d) (λ r. covers r x y cx cy) seen
      → (cx == x && cy == y ≡ true → seen ≡ true)
      → covers (opposite d) qx qy cx cy ≡ true
      → seen ≡ true
  unfolding has_neighbor
  origin_send to_n x zero qx qy cx cy seen place cell near e origin known here region = ground arith
  origin_send to_n x (suc y) qx qy cx cy seen place cell near e origin known here region =
      ground arith
  origin_send to_s x y qx qy cx cy seen place cell near e origin known here region = ground arith
  origin_send to_e x y qx qy cx cy seen place cell near e origin known here region = ground arith
  origin_send to_w zero y qx qy cx cy seen place cell near e origin known here region = ground arith
  origin_send to_w (suc x) y qx qy cx cy seen place cell near e origin known here region =
      ground arith
  origin_send to_ne x zero qx qy cx cy seen place cell near e origin known here region =
      ground arith
  origin_send to_ne x (suc y) qx qy cx cy seen place cell near e origin known here region =
      ground arith
  origin_send to_nw zero y qx qy cx cy seen place cell near e origin known here region =
      ground arith
  origin_send to_nw (suc x) zero qx qy cx cy seen place cell near e origin known here region =
      ground arith
  origin_send to_nw (suc x) (suc y) qx qy cx cy seen place cell near e origin known here region =
      ground arith
  origin_send to_se x y qx qy cx cy seen place cell near e origin known here region = ground arith
  origin_send to_sw zero y qx qy cx cy seen place cell near e origin known here region =
      ground arith
  origin_send to_sw (suc x) y qx qy cx cy seen place cell near e origin known here region =
      ground arith

  pub covers-send :
      (d : SyncDirection) (x y qx qy cx cy : ℕ) (seen : Bool)
      → is_place params x y ≡ true
      → is_place params cx cy ≡ true
      → has_neighbor params x y d ≡ true
      → shift d x y ≡ some (qx, qy)
      → AllSeen (get_send_requirements x y d) (λ r. covers r x y cx cy) seen
      → (cx == x && cy == y ≡ true → seen ≡ true)
      → covers (opposite d) qx qy cx cy ≡ true
      → seen ≡ true
  covers-send d x y qx qy cx cy seen place cell near e known here region =
      elim (Bool-cases (x == 0 && y == 1)) [
        | inl origin ↦
            origin_send d x y qx qy cx cy seen place cell near e origin (rw origin at known) here
              region
        | inr other ↦
            ordinary_send d x y qx qy cx cy seen place cell near e other (rw other at known) here
              region
      ]

  -- The neighbour is a place, and sees the place back in the opposite direction.
  pub has_neighbor-opposite :
      (d : SyncDirection) (x y qx qy : ℕ)
      → is_place params x y ≡ true
      → has_neighbor params x y d ≡ true
      → shift d x y ≡ some (qx, qy)
      → (is_place params qx qy ≡ true)
        × (has_neighbor params qx qy (opposite d) ≡ true)
        × (shift (opposite d) qx qy ≡ some (x, y))
  unfolding has_neighbor
  has_neighbor-opposite to_n x zero qx qy place near e = ground arith
  has_neighbor-opposite to_n x (suc y) qx qy place near e = ground arith
  has_neighbor-opposite to_s x zero qx qy place near e = ground arith
  has_neighbor-opposite to_s x (suc y) qx qy place near e = ground arith
  has_neighbor-opposite to_e x zero qx qy place near e = ground arith
  has_neighbor-opposite to_e x (suc y) qx qy place near e = ground arith
  has_neighbor-opposite to_w zero y qx qy place near e = ground arith
  has_neighbor-opposite to_w (suc x) zero qx qy place near e = ground arith
  has_neighbor-opposite to_w (suc x) (suc y) qx qy place near e = ground arith
  has_neighbor-opposite to_ne x zero qx qy place near e = ground arith
  has_neighbor-opposite to_ne x (suc y) qx qy place near e = ground arith
  has_neighbor-opposite to_nw zero y qx qy place near e = ground arith
  has_neighbor-opposite to_nw (suc x) zero qx qy place near e = ground arith
  has_neighbor-opposite to_nw (suc x) (suc y) qx qy place near e = ground arith
  has_neighbor-opposite to_se x zero qx qy place near e = ground arith
  has_neighbor-opposite to_se x (suc y) qx qy place near e = ground arith
  has_neighbor-opposite to_sw zero y qx qy place near e = ground arith
  has_neighbor-opposite to_sw (suc x) zero qx qy place near e = ground arith
  has_neighbor-opposite to_sw (suc x) (suc y) qx qy place near e = ground arith
