-- ===== src/Network/Sync/Aggregate/Extremes.antt =====
-- The least and the greatest contribution, for `aggregate_sync_values` of
-- python/zamlet/synchronization.py.
use zamlet.Common.{
  ℕ, ◌≤◌, ◌≡◌, ◌⊎◌, inl, inr, refl, sym, ap, arith, ltb, ltb→lt, if◌then◌else◌, Bool, true, false,
  Option, none, some, List, [], ◌∷◌,
}
use zamlet.Network.Sync.Aggregate.{present, min_by, max_by}

-- `v` is one of the contributions; the places of the others may hold none.
abbrev pub Contributes : ℕ → List (Option ℕ) → Type 0
Contributes v [] = ⊥
Contributes v (o ∷ os) = (o ≡ some v) ⊎ Contributes v os

-- `v` is a value of the list.
abbrev pub Among : ℕ → List ℕ → Type 0
Among v [] = ⊥
Among v (w ∷ ws) = (v ≡ w) ⊎ Among v ws

abbrev pub AllFrom : (ℕ → ℕ) → ℕ → List ℕ → Type 0
AllFrom key low [] = Unit {0}
AllFrom key low (v ∷ vs) = (low ≤ key v) × AllFrom key low vs

abbrev pub AllTo : (ℕ → ℕ) → ℕ → List ℕ → Type 0
AllTo key high [] = Unit {0}
AllTo key high (v ∷ vs) = (key v ≤ high) × AllTo key high vs

-- The least is a value, and no value is below it.
pub min_by_lem :
    (key : ℕ → ℕ) (v : ℕ) (vs : List ℕ)
    → Among (min_by key v vs) (v ∷ vs) × AllFrom key (key (min_by key v vs)) (v ∷ vs)
unfolding min_by
min_by_lem key v [] = (inl refl, (omega arith, tt))
min_by_lem key v (w ∷ vs) =
    by_test (min_by_lem key w vs) (min_by_lem key v vs) (ltb (key w) (key v)) refl
  where
    skip : {m : ℕ} → Among m (v ∷ vs) → Among m (v ∷ w ∷ vs)
    skip (inl e) = inl e
    skip (inr later) = inr (inr later)

    by_test :
        Among (min_by key w vs) (w ∷ vs) × AllFrom key (key (min_by key w vs)) (w ∷ vs)
        → Among (min_by key v vs) (v ∷ vs) × AllFrom key (key (min_by key v vs)) (v ∷ vs)
        → (b : Bool) → ltb (key w) (key v) ≡ b
        → let m = min_by key (if b then w else v) vs in
          Among m (v ∷ w ∷ vs) × AllFrom key (key m) (v ∷ w ∷ vs)
    by_test (found, (bound, rest)) other true better =
        (inr found, (omega (arith, ltb→lt (key w) (key v) better), (bound, rest)))
    by_test other (found, (bound, rest)) false not_better =
        let order : key v ≤ key w = ground (arith, not_better) in
        (skip found, (bound, (omega arith, rest)))

pub max_by_lem :
    (key : ℕ → ℕ) (v : ℕ) (vs : List ℕ)
    → Among (max_by key v vs) (v ∷ vs) × AllTo key (key (max_by key v vs)) (v ∷ vs)
unfolding max_by
max_by_lem key v [] = (inl refl, (omega arith, tt))
max_by_lem key v (w ∷ vs) =
    by_test (max_by_lem key w vs) (max_by_lem key v vs) (ltb (key v) (key w)) refl
  where
    skip : {m : ℕ} → Among m (v ∷ vs) → Among m (v ∷ w ∷ vs)
    skip (inl e) = inl e
    skip (inr later) = inr (inr later)

    by_test :
        Among (max_by key w vs) (w ∷ vs) × AllTo key (key (max_by key w vs)) (w ∷ vs)
        → Among (max_by key v vs) (v ∷ vs) × AllTo key (key (max_by key v vs)) (v ∷ vs)
        → (b : Bool) → ltb (key v) (key w) ≡ b
        → let m = max_by key (if b then w else v) vs in
          Among m (v ∷ w ∷ vs) × AllTo key (key m) (v ∷ w ∷ vs)
    by_test (found, (bound, rest)) other true better =
        (inr found, (omega (arith, ltb→lt (key v) (key w) better), (bound, rest)))
    by_test other (found, (bound, rest)) false not_better =
        let order : key w ≤ key v = ground (arith, not_better) in
        (skip found, (bound, (omega arith, rest)))

-- What is left after the absent ones are dropped is what was contributed.
pub present-Contributes :
    (values : List (Option ℕ)) (m : ℕ) → Among m (present values) → Contributes m values
unfolding present
present-Contributes [] m h = h
present-Contributes (none ∷ os) m h = inr (present-Contributes os m h)
present-Contributes (some v ∷ os) m (inl e) = inl (ap some (sym e))
present-Contributes (some v ∷ os) m (inr h) = inr (present-Contributes os m h)

some_same : {u v : ℕ} → some u ≡ some v → u ≡ v
some_same e = cc

pub Contributes-present :
    (values : List (Option ℕ)) (m : ℕ) → Contributes m values → Among m (present values)
unfolding present
Contributes-present [] m h = h
Contributes-present (none ∷ os) m (inl e) = cc
Contributes-present (none ∷ os) m (inr h) = Contributes-present os m h
Contributes-present (some v ∷ os) m (inl e) = inl (sym (some_same e))
Contributes-present (some v ∷ os) m (inr h) = inr (Contributes-present os m h)

pub present_some :
    (values : List (Option ℕ)) (m : ℕ)
    → Contributes m values
    → (v : ℕ) × (vs : List ℕ) × (present values ≡ v ∷ vs)
present_some values m h = by_list (present values) refl (Contributes-present values m h)
  where
    by_list :
        (l : List ℕ)
        → present values ≡ l
        → Among m l
        → (v : ℕ) × (vs : List ℕ) × (present values ≡ v ∷ vs)
    by_list [] e h = elim h [ ]
    by_list (v ∷ vs) e h = (v, vs, e)

pub AllFrom-Among :
    (key : ℕ → ℕ) (low u : ℕ) (vs : List ℕ) → AllFrom key low vs → Among u vs → low ≤ key u
AllFrom-Among key low u [] h m = elim m [ ]
AllFrom-Among key low u (v ∷ vs) (bound, _) (inl e) = rw e bound
AllFrom-Among key low u (v ∷ vs) (_, rest) (inr m) = AllFrom-Among key low u vs rest m

pub AllTo-Among :
    (key : ℕ → ℕ) (high u : ℕ) (vs : List ℕ) → AllTo key high vs → Among u vs → key u ≤ high
AllTo-Among key high u [] h m = elim m [ ]
AllTo-Among key high u (v ∷ vs) (bound, _) (inl e) = rw e bound
AllTo-Among key high u (v ∷ vs) (_, rest) (inr m) = AllTo-Among key high u vs rest m
