-- ===== src/Network/Router.antt =====
-- The routing decisions of python/zamlet/router.py. Coordinates are not negative; a header is the
-- part of it that routing reads.
pub mod Delivery
use zamlet.Common.{ℕ, ◌+◌, ◌-◌, ltb, if◌then◌else◌, List, [], ◌∷◌, Result, ok, err, value_error}

pub data Direction : Type 0 where
  dir_n dir_s dir_e dir_w dir_h : Direction

pub data SendType : Type 0 where
  single broadcast : SendType

pub record Header : Type 0 where
  pub target_x : ℕ
  pub target_y : ℕ
  pub send_type : SendType

pub xy_direction : ℕ → ℕ → ℕ → ℕ → Result Direction
xy_direction src_x src_y dst_x dst_y =
    if ltb src_x dst_x
    then ok dir_e
    else if ltb dst_x src_x
    then ok dir_w
    else if ltb src_y dst_y
    then ok dir_s
    else if ltb dst_y src_y
    then ok dir_n
    else err value_error

-- The router stands at `x`, `y`.
module _ (x y : ℕ) where
  abbrev new_header : Header → Header
  new_header header = record header { target_x = x }

  unfoldable single_directions : Header → List (Header × Direction)
  single_directions header =
      if ltb x header.target_x
      then (header, dir_e) ∷ []
      else if ltb header.target_x x
      then (header, dir_w) ∷ []
      else if ltb y header.target_y
      then (header, dir_s) ∷ []
      else if ltb header.target_y y
      then (header, dir_n) ∷ []
      else (header, dir_h) ∷ []

  unfoldable broadcast_directions : Header → List (Header × Direction)
  broadcast_directions header =
      if ltb x header.target_x
      then if ltb y header.target_y
        then (header, dir_h) ∷ (header, dir_e) ∷ (new_header header, dir_s) ∷ []
        else if ltb header.target_y y
        then (header, dir_h) ∷ (header, dir_e) ∷ (new_header header, dir_n) ∷ []
        else (header, dir_h) ∷ (header, dir_e) ∷ []
      else if ltb header.target_x x
      then if ltb y header.target_y
        then (header, dir_h) ∷ (header, dir_w) ∷ (new_header header, dir_s) ∷ []
        else if ltb header.target_y y
        then (header, dir_h) ∷ (header, dir_w) ∷ (new_header header, dir_n) ∷ []
        else (header, dir_h) ∷ (header, dir_w) ∷ []
      else if ltb y header.target_y
      then (header, dir_h) ∷ (header, dir_s) ∷ []
      else if ltb header.target_y y
      then (header, dir_h) ∷ (header, dir_n) ∷ []
      else (header, dir_h) ∷ []

  abbrev directions_of : SendType → Header → List (Header × Direction)
  directions_of single header = single_directions header
  directions_of broadcast header = broadcast_directions header

  pub get_output_directions : Header → List (Header × Direction)
  get_output_directions header = directions_of header.send_type header

-- The router on the other side of a link.
abbrev pub neighbor : Direction → ℕ → ℕ → ℕ × ℕ
neighbor dir_n x y = (x, y - 1)
neighbor dir_s x y = (x, y + 1)
neighbor dir_e x y = (x + 1, y)
neighbor dir_w x y = (x - 1, y)
neighbor dir_h x y = (x, y)
