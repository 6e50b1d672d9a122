-- ===== src/Network/Router/Delivery.antt =====
-- Where packets go by the routing of python/zamlet/router.py.
use zamlet.Common.{
  ℕ, zero, suc, ◌+◌, ◌-◌, ◌<◌, ◌≡◌, arith, ltb, Bool-cases, inl, inr, List, [], ◌∷◌, Result, ok,
  err, assertion,
}
use zamlet.Network.Router.{
  Direction, dir_n, dir_s, dir_e, dir_w, dir_h, single, Header, xy_direction, single_directions,
  get_output_directions, neighbor,
}

-- The links between two places.
abbrev pub distance : ℕ → ℕ → ℕ → ℕ → ℕ
distance x y tx ty = (x - tx) + (tx - x) + ((y - ty) + (ty - y))

-- The host at `here` takes a packet out of the network; another direction passes it on.
abbrev hop :
    (Direction → Header → Result (ℕ × ℕ)) → ℕ × ℕ → List (Header × Direction) → Result (ℕ × ℕ)
hop pass here [] = err assertion
hop pass here ((passed, dir_h) ∷ []) = ok here
hop pass here ((passed, dir_n) ∷ []) = pass dir_n passed
hop pass here ((passed, dir_s) ∷ []) = pass dir_s passed
hop pass here ((passed, dir_e) ∷ []) = pass dir_e passed
hop pass here ((passed, dir_w) ∷ []) = pass dir_w passed
hop pass here (_ ∷ _ ∷ _) = err assertion

-- A single packet that is passed on, hop by hop, until a router takes it out of the network.
abbrev pub follow : ℕ → ℕ → ℕ → Header → Result (ℕ × ℕ)
follow zero x y header = err assertion
follow (suc fuel) x y header =
    hop (λ d passed. follow fuel (neighbor d x y).0 (neighbor d x y).1 passed) (x, y)
      (get_output_directions x y header)

-- `xy_direction` succeeds for two different places, and the neighbour in that direction is one
-- link closer to the target.
pub xy_direction-closer :
    (x y tx ty : ℕ)
    → 0 < distance x y tx ty
    → (d : Direction) × (xy_direction x y tx ty ≡ ok d)
      × (distance (neighbor d x y).0 (neighbor d x y).1 tx ty + 1 ≡ distance x y tx ty)
unfolding xy_direction
xy_direction-closer x y tx ty far = elim (Bool-cases (ltb x tx)) [
  | inl east ↦ (dir_e, ground arith, ground arith)
  | inr not_east ↦ elim (Bool-cases (ltb tx x)) [
    | inl west ↦ (dir_w, ground arith, ground arith)
    | inr not_west ↦ elim (Bool-cases (ltb y ty)) [
      | inl south ↦ (dir_s, ground arith, ground arith)
      | inr not_south ↦ (dir_n, ground arith, ground arith)
    ]
  ]
]

-- A single packet that is passed on by `get_output_directions` from any router comes to its target
-- and leaves the network there, within as many hops as the distance.
pub single_delivery :
    (fuel x y tx ty : ℕ)
    → distance x y tx ty < fuel
    → follow fuel x y (record { target_x = tx; target_y = ty; send_type = single }) ≡ ok (tx, ty)
unfolding get_output_directions single_directions
single_delivery zero x y tx ty near = absurd (omega arith)
single_delivery (suc fuel) x y tx ty near =
    let go_e = single_delivery fuel (x + 1) y tx ty in
    let go_w = single_delivery fuel (x - 1) y tx ty in
    let go_s = single_delivery fuel x (y + 1) tx ty in
    let go_n = single_delivery fuel x (y - 1) tx ty in ground (arith, go_e, go_w, go_s, go_n)
