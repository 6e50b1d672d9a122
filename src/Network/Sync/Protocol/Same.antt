-- ===== src/Network/Sync/Protocol/Same.antt =====
-- Which place sent a packet: the tests on places and directions decide their equality, and a
-- neighbour's opposite direction leads back.
use zamlet.Common.{
  ℕ, ◌==◌, if◌then◌else◌, Bool, ◌||◌, true, false, ◌&&◌, ◌≡◌, refl, sym, ◌∙◌, ap, arith, Option,
  some, ==→eq,
}
use zamlet.Params.{ZamletParams}
use zamlet.Network.Sync.Grid.{
  SyncDirection, to_n, to_s, to_e, to_w, to_ne, to_nw, to_se, to_sw, direction_value,
  same_direction, shift, is_place, has_neighbor,
}
use zamlet.Network.Sync.Grid.Regions.{opposite, has_neighbor-opposite}
use zamlet.Network.Sync.Protocol.{same_place}

direction_of : ℕ → SyncDirection
direction_of n =
    if n == 0
    then to_n
    else if n == 1
    then to_s
    else if n == 2
    then to_e
    else if n == 3
    then to_w
    else if n == 4
    then to_ne
    else if n == 5
    then to_nw
    else if n == 6
    then to_se
    else to_sw

direction_of-direction_value : (d : SyncDirection) → direction_of (direction_value d) ≡ d
unfolding direction_of
direction_of-direction_value to_n = refl
direction_of-direction_value to_s = refl
direction_of-direction_value to_e = refl
direction_of-direction_value to_w = refl
direction_of-direction_value to_ne = refl
direction_of-direction_value to_nw = refl
direction_of-direction_value to_se = refl
direction_of-direction_value to_sw = refl

pub opposite-opposite : (d : SyncDirection) → opposite (opposite d) ≡ d
opposite-opposite to_n = refl
opposite-opposite to_s = refl
opposite-opposite to_e = refl
opposite-opposite to_w = refl
opposite-opposite to_ne = refl
opposite-opposite to_nw = refl
opposite-opposite to_se = refl
opposite-opposite to_sw = refl

pub same_direction-eq : (a b : SyncDirection) → same_direction a b ≡ true → b ≡ a
same_direction-eq a b h =
    sym (direction_of-direction_value b)
    ∙ ap direction_of (sym (==→eq (direction_value a) (direction_value b) h))
    ∙ direction_of-direction_value a

pub same_place-eq : (px py x y : ℕ) → same_place px py x y ≡ true → (x ≡ px) × (y ≡ py)
same_place-eq px py x y h = (ground arith, ground arith)

pub and-parts : (a b : Bool) → a && b ≡ true → (a ≡ true) × (b ≡ true)
and-parts true b h = (refl, h)
and-parts false b h = cc

pub same_link-eq :
    (px py : ℕ) (pd : SyncDirection) (x y : ℕ) (d : SyncDirection)
    → same_place px py x y && same_direction pd d ≡ true
    → (x ≡ px) × (y ≡ py) × (d ≡ pd)
same_link-eq px py pd x y d h =
    let split = and-parts (same_place px py x y) (same_direction pd d) h in
    let (ex, ey) = same_place-eq px py x y (split.0) in (ex, ey, same_direction-eq pd d (split.1))

pub some_pair :
    {x y px py : ℕ} → ◌≡◌ {A = Option (ℕ × ℕ)} (some (x, y)) (some (px, py)) → (x ≡ px) × (y ≡ py)
some_pair e = (cc, cc)

pub or-cases :
    (t b r : Bool) {P : Type 0} → r ≡ (t || b) → r ≡ true → (t ≡ true → P) → (b ≡ true → P) → P
or-cases true b r e h new old = new refl
or-cases false b r e h new old = old (sym e ∙ h)

module _ (params : ZamletParams) where
  -- Two packets to one place from one side have one sender.
  pub same_sender :
      (px py : ℕ) (pd : SyncDirection) (rx ry : ℕ) (x y : ℕ) (d : SyncDirection) (qx qy : ℕ)
      → (is_place params px py ≡ true) × (has_neighbor params px py pd ≡ true)
      → shift pd px py ≡ some (rx, ry)
      → (is_place params x y ≡ true) × (has_neighbor params x y d ≡ true)
      → shift d x y ≡ some (qx, qy)
      → same_place rx ry qx qy && same_direction (opposite pd) (opposite d) ≡ true
      → (x ≡ px) × (y ≡ py) × (d ≡ pd)
  same_sender px py pd rx ry x y d qx qy (pp, pn) pe (xp, xn) xe h =
      let (ex, ey, ed) = same_link-eq rx ry (opposite pd) qx qy (opposite d) h in
      let (_, _, back) = has_neighbor-opposite params pd px py rx ry pp pn pe in
      let (_, _, back') = has_neighbor-opposite params d x y qx qy xp xn xe in
      let same : ◌≡◌ {A = Option (ℕ × ℕ)} (some (x, y)) (some (px, py)) =
        sym back' ∙ rw (ex, ey, ed) back in
      let pairs = some_pair same in
      (pairs.0, pairs.1, sym (opposite-opposite d) ∙ ap opposite ed ∙ opposite-opposite pd)
