-- ===== src/Network/Sync/Aggregate/Orders.antt =====
-- Minima and maxima of `aggregate_sync_values` of python/zamlet/synchronization.py, against the
-- orders of naturals and of two's complement.
use native.Mathlib.Nat.{pow-succ', one-le-pow}
use zamlet.Common.{
  ℕ, zero, suc, ◌+◌, ◌-◌, ◌*◌, ◌/◌, ◌%◌, ◌^◌, ◌≤◌, ◌<◌, ◌≡◌, refl, sym, ◌∙◌, arith, bit_and, min,
  subst, ltb, leb, ◌==◌, if◌then◌else◌, true, not, lt→ltb, Option, some, List, ◌∷◌, ok,
}
use zamlet.Common.Int.{ℤ, pos, sub_ℕ, le_ℤ}
use zamlet.Bits.{bit_and-mask, and_digit, bit_and-one}
use zamlet.Params.{ZamletParams}
use zamlet.Network.Sync.Aggregate.{
  agg_min, agg_minu, agg_max, agg_maxu, sign_key, min_by, max_by, present, aggregate,
  aggregate_present, aggregate_sync_values,
}
use zamlet.Network.Sync.Aggregate.Extremes.{
  Contributes, Among, min_by_lem, max_by_lem, present-Contributes, Contributes-present,
  present_some, AllFrom-Among, AllTo-Among,
}

-- The number that the low `width` bits stand for in two's complement.
abbrev pub twos_complement : ℕ → ℕ → ℤ
twos_complement width v =
    if ltb (v % 2 ^ width) (2 ^ (width - 1))
    then pos (v % 2 ^ width)
    else sub_ℕ (v % 2 ^ width) (2 ^ width)

-- The top bit of a number of `suc k` bits.
top_step :
    (p q a : ℕ)
    → q ≡ 2 * p
    → (if leb p (a / 2) then p else 0) * 2 + min (a % 2) 0 ≡ (if leb q a then q else 0)
top_step p q a e = ground arith

top_bit : (k a : ℕ) → a < 2 ^ suc k → bit_and a (2 ^ k) ≡ (if leb (2 ^ k) a then 2 ^ k else 0)
top_bit zero a h = ground (arith, bit_and-one a)
top_bit (suc k) a h =
    let double = pow-succ' 2 k in
    let double' = pow-succ' 2 (suc k) in
    let half : 2 ^ suc k / 2 ≡ 2 ^ k = omega (arith, double) in
    let even : 2 ^ suc k % 2 ≡ 0 = omega (arith, double) in
    and_digit a (2 ^ suc k)
    ∙ rw (half, even, top_bit k (a / 2) (omega (arith, double')))
        (top_step (2 ^ k) (2 ^ suc k) a (omega (arith, double)))

key_step :
    (p m : ℕ)
    → 0 < p
    → (if not ((if leb p m then p else 0) == 0) then m - p else m + p)
      ≡ (if ltb m p then m + p else m - p)
key_step p m h = ground arith

key_lem :
    (k v : ℕ)
    → sign_key (suc k) v
      ≡ (if ltb (v % 2 ^ suc k) (2 ^ k) then v % 2 ^ suc k + 2 ^ k else v % 2 ^ suc k - 2 ^ k)
unfolding sign_key
key_lem k v =
    let e : suc k - 1 ≡ k = omega arith in
    let some_bits : 0 < 2 ^ suc k = one-le-pow (suc k) 2 (omega arith) in
    let low : v % 2 ^ suc k < 2 ^ suc k = omega arith in
    rw (bit_and-mask (suc k) v, e, top_bit k (v % 2 ^ suc k) low)
      (key_step (2 ^ k) (v % 2 ^ suc k) (one-le-pow k 2 (omega arith)))

order_step :
    (p q a b : ℕ)
    → q ≡ 2 * p
    → a < q
    → b < q
    → (if ltb a p then a + p else a - p) ≤ (if ltb b p then b + p else b - p)
    → le_ℤ (if ltb a p then pos a else sub_ℕ a q) (if ltb b p then pos b else sub_ℕ b q) ≡ true
order_step p q a b e h k le = ground arith

-- The keys are in the order of the numbers.
key_order :
    (k u v : ℕ)
    → sign_key (suc k) u ≤ sign_key (suc k) v
    → le_ℤ (twos_complement (suc k) u) (twos_complement (suc k) v) ≡ true
key_order k u v h =
    let e : suc k - 1 ≡ k = omega arith in
    let some_bits : 0 < 2 ^ suc k = one-le-pow (suc k) 2 (omega arith) in
    let low_u : u % 2 ^ suc k < 2 ^ suc k = omega arith in
    let low_v : v % 2 ^ suc k < 2 ^ suc k = omega arith in
    rw e (
      order_step (2 ^ k) (2 ^ suc k) (u % 2 ^ suc k) (v % 2 ^ suc k) (omega (arith, pow-succ' 2 k))
        low_u low_v (rw (key_lem k u, key_lem k v) at h))

abbrev pub Bound : (ℕ → ℕ → Type 0) → List (Option ℕ) → ℕ → Type 0
Bound Before values m = Contributes m values × ((u : ℕ) → Contributes u values → Before m u)

-- Where a value is contributed and the width is positive, MINU, MAXU, MIN and MAX of
-- `aggregate_sync_values` give a contributed value, and no contributed value, at any place, is
-- below the minimum or above the maximum: for MINU and MAXU as natural numbers, for MIN and MAX as
-- the integers that the low bits stand for in two's complement.
pub aggregate_sync_values_order :
    (params : ZamletParams) (values : List (Option ℕ)) (width v : ℕ)
    → 0 < width
    → Contributes v values
    → ((m : ℕ) × (aggregate_sync_values params agg_minu values width ≡ ok (some m))
        × Bound (λ a b. a ≤ b) values m)
      × ((m : ℕ) × (aggregate_sync_values params agg_maxu values width ≡ ok (some m))
          × Bound (λ a b. b ≤ a) values m)
      × ((m : ℕ) × (aggregate_sync_values params agg_min values width ≡ ok (some m))
          × Bound (λ a b. le_ℤ (twos_complement width a) (twos_complement width b) ≡ true) values m)
      × ((m : ℕ) × (aggregate_sync_values params agg_max values width ≡ ok (some m))
          × Bound (λ a b. le_ℤ (twos_complement width b) (twos_complement width a) ≡ true) values m)
unfolding aggregate_sync_values aggregate_present aggregate
aggregate_sync_values_order params values zero v h given = absurd (omega arith)
aggregate_sync_values_order params values (suc k) v h given =
    let (w, vs, e) = present_some values v given in
    let (a, b) = min_by_lem (λ t. t) w vs in
    let (c, d) = max_by_lem (λ t. t) w vs in
    let (a', b') = min_by_lem (sign_key (suc k)) w vs in
    let (c', d') = max_by_lem (sign_key (suc k)) w vs in
    (
      (
        min_by (λ t. t) w vs,
        rw e refl,
        (
          from_present w vs e _ a,
          λ u g. AllFrom-Among (λ t. t) _ u (w ∷ vs) b (to_present w vs e u g),
        ),
      ),
      (
        max_by (λ t. t) w vs,
        rw e refl,
        (
          from_present w vs e _ c,
          λ u g. AllTo-Among (λ t. t) _ u (w ∷ vs) d (to_present w vs e u g),
        ),
      ),
      (
        min_by (sign_key (suc k)) w vs,
        rw (e, lt→ltb 0 (suc k) h) refl,
        (
          from_present w vs e _ a',
          λ u g.
              key_order k _ u
                (AllFrom-Among (sign_key (suc k)) _ u (w ∷ vs) b' (to_present w vs e u g)),
        ),
      ),
      (
        max_by (sign_key (suc k)) w vs,
        rw (e, lt→ltb 0 (suc k) h) refl,
        (
          from_present w vs e _ c',
          λ u g.
              key_order k u _
                (AllTo-Among (sign_key (suc k)) _ u (w ∷ vs) d' (to_present w vs e u g)),
        ),
      ),
    )
  where
    from_present :
        (w : ℕ) (vs : List ℕ)
        → present values ≡ w ∷ vs
        → (m : ℕ) → Among m (w ∷ vs)
        → Contributes m values
    from_present w vs e m found = present-Contributes values m (subst (Among m) (sym e) found)

    to_present :
        (w : ℕ) (vs : List ℕ)
        → present values ≡ w ∷ vs
        → (m : ℕ) → Contributes m values
        → Among m (w ∷ vs)
    to_present w vs e m g = subst (Among m) e (Contributes-present values m g)
