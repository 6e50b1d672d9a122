-- ===== src/Network/Sync/Grid.antt =====
-- The places of the synchronization network of python/zamlet/synchronization.py: the kamlets, and
-- the lamlet at (0, -1). A row is one more than the source's `ky`, so the lamlet is at (0, 0).
pub mod Regions
pub mod Order
use zamlet.Common.{
  ℕ, zero, suc, ◌==◌, ltb, leb, if◌then◌else◌, Bool, true, false, ◌&&◌, ◌||◌, Option, none, some,
  List, [], ◌∷◌,
}
use zamlet.Params.{ZamletParams}

pub data SyncDirection : Type 0 where
  to_n to_s to_e to_w to_ne to_nw to_se to_sw : SyncDirection

-- The values of the enumeration, and its members in order.
abbrev pub direction_value : SyncDirection → ℕ
direction_value to_n = 0
direction_value to_s = 1
direction_value to_e = 2
direction_value to_w = 3
direction_value to_ne = 4
direction_value to_nw = 5
direction_value to_se = 6
direction_value to_sw = 7

abbrev pub all_directions : List SyncDirection
all_directions = to_n ∷ to_s ∷ to_e ∷ to_w ∷ to_ne ∷ to_nw ∷ to_se ∷ to_sw ∷ []

abbrev pub same_direction : SyncDirection → SyncDirection → Bool
same_direction a b = direction_value a == direction_value b

-- `_direction_delta` added to a place; `none` is a place with a column or a row before the first.
abbrev pub shift : SyncDirection → ℕ → ℕ → Option (ℕ × ℕ)
shift to_n x zero = none
shift to_n x (suc y) = some (x, y)
shift to_s x y = some (x, suc y)
shift to_e x y = some (suc x, y)
shift to_w zero y = none
shift to_w (suc x) y = some (x, y)
shift to_ne x zero = none
shift to_ne x (suc y) = some (suc x, y)
shift to_nw zero y = none
shift to_nw (suc x) zero = none
shift to_nw (suc x) (suc y) = some (x, y)
shift to_se x y = some (suc x, suc y)
shift to_sw zero y = none
shift to_sw (suc x) y = some (x, suc y)

module _ (params : ZamletParams) where
  open params use {k_cols, k_rows}

  abbrev pub in_grid : ℕ → ℕ → Bool
  in_grid x y = ltb x k_cols && (leb 1 y && leb y k_rows)

  abbrev pub is_place : ℕ → ℕ → Bool
  is_place x y = x == 0 && y == 0 || in_grid x y

  -- The lamlet sees the kamlets only; a kamlet sees the lamlet too.
  abbrev pub may_see : ℕ → ℕ → ℕ → Bool
  may_see zero nx ny = in_grid nx ny
  may_see (suc _) nx ny = nx == 0 && ny == 0 || in_grid nx ny

  abbrev pub seen_from : ℕ → Option (ℕ × ℕ) → Bool
  seen_from y none = false
  seen_from y (some (nx, ny)) = may_see y nx ny

  unfoldable pub has_neighbor : ℕ → ℕ → SyncDirection → Bool
  has_neighbor x y d = seen_from y (shift d x y)

-- The regions that `SEND_REQUIREMENTS` names: a quadrant, column or row is named by its direction.
abbrev pub send_requirements : SyncDirection → List SyncDirection
send_requirements to_n = to_s ∷ []
send_requirements to_s = to_n ∷ []
send_requirements to_e = to_w ∷ []
send_requirements to_w = to_e ∷ []
send_requirements to_ne = to_sw ∷ to_s ∷ to_w ∷ []
send_requirements to_nw = to_se ∷ to_s ∷ to_e ∷ []
send_requirements to_se = to_nw ∷ to_n ∷ to_w ∷ []
send_requirements to_sw = to_ne ∷ to_n ∷ to_e ∷ []

-- `SEND_REQUIREMENTS_ORIGIN`
abbrev pub send_requirements_origin : SyncDirection → List SyncDirection
send_requirements_origin to_n = to_se ∷ to_s ∷ to_e ∷ []
send_requirements_origin to_s = to_n ∷ []
send_requirements_origin to_e = to_n ∷ to_w ∷ []
send_requirements_origin to_w = to_e ∷ []
send_requirements_origin to_ne = to_sw ∷ to_s ∷ to_w ∷ []
send_requirements_origin to_nw = to_se ∷ to_s ∷ to_e ∷ []
send_requirements_origin to_se = to_nw ∷ to_n ∷ to_w ∷ []
send_requirements_origin to_sw = to_ne ∷ to_n ∷ to_e ∷ []

-- `_get_send_requirements`: kamlet (0, 0) is in row 1.
abbrev pub get_send_requirements : ℕ → ℕ → SyncDirection → List SyncDirection
get_send_requirements x y d =
    if x == 0 && y == 1 then send_requirements_origin d else send_requirements d
