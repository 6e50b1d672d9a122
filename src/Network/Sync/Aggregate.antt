-- ===== src/Network/Sync/Aggregate.antt =====
-- `aggregate_sync_values` of python/zamlet/synchronization.py.
pub mod Extremes
pub mod Orders
pub mod Faults
use zamlet.Common.{
  ℕ, ◌+◌, ◌-◌, ◌*◌, ◌/◌, ◌^◌, ◌≤◌, ◌≡◌, ◌⊎◌, inl, inr, refl, arith, bit_and, bit_or, ltb, ltb→lt,
  ◌==◌, if◌then◌else◌, Bool, true, false, not, Option, none, some, Result, ok, value_error, guard,
  ◌>>=◌, ◌>>◌, List, [], ◌∷◌,
}
use zamlet.Params.{ZamletParams}

pub data SyncAggOp : Type 0 where
  agg_min agg_minu agg_max agg_maxu agg_and agg_or agg_min_pair agg_min_fault_info : SyncAggOp

-- The values of the enumeration.
abbrev pub op_value : SyncAggOp → ℕ
op_value agg_min = 0
op_value agg_minu = 1
op_value agg_max = 2
op_value agg_maxu = 3
op_value agg_and = 4
op_value agg_or = 5
op_value agg_min_pair = 6
op_value agg_min_fault_info = 7

-- `[v for v in values if v is not None]`
unfoldable pub present : List (Option ℕ) → List ℕ
present [] = []
present (none ∷ vs) = present vs
present (some v ∷ vs) = v ∷ present vs

-- The order of `_sign_extend`, as an offset: the values of `width` bits with the sign bit come
-- first.
unfoldable pub sign_key : ℕ → ℕ → ℕ
sign_key width value =
    let v = bit_and value (2 ^ width - 1) in
    if not (bit_and v (2 ^ (width - 1)) == 0) then v - 2 ^ (width - 1) else v + 2 ^ (width - 1)

module _ (key : ℕ → ℕ) where
  -- `min(best, *values, key=key)`: the first of the least.
  unfoldable pub min_by : ℕ → List ℕ → ℕ
  min_by best [] = best
  min_by best (v ∷ vs) = min_by (if ltb (key v) (key best) then v else best) vs

  unfoldable pub max_by : ℕ → List ℕ → ℕ
  max_by best [] = best
  max_by best (v ∷ vs) = max_by (if ltb (key best) (key v) then v else best) vs

unfoldable pub all_and : ℕ → List ℕ → ℕ
all_and result [] = result
all_and result (v ∷ vs) = all_and (bit_and result v) vs

unfoldable pub all_or : ℕ → List ℕ → ℕ
all_or result [] = result
all_or result (v ∷ vs) = all_or (bit_or result v) vs

-- The low fields that are present.
unfoldable pub lows : List ℕ → List ℕ
lows [] = []
lows (v ∷ vs) = let rest = lows vs in if bit_and v 511 == 0 then rest else bit_and v 511 ∷ rest

unfoldable pub highs : List ℕ → List ℕ
highs [] = []
highs (v ∷ vs) = bit_and (v / 512) 7 ∷ highs vs

-- `min(values) if values else default`
unfoldable pub min_or : ℕ → List ℕ → ℕ
min_or otherwise [] = otherwise
min_or otherwise (v ∷ vs) = min_by (λ t. t) v vs

-- The key of a packed fault: the `element_index` of `unpack_fault_info`.
unfoldable pub fault_index : ZamletParams → ℕ → ℕ
fault_index params value = value / 2 ^ (params.word_bytes * 8 + 2)

-- `_sign_extend` shifts by `width - 1`, which raises where the width is 0.
abbrev pub signed : ℕ → ℕ → Result ℕ
signed width m = guard (ltb 0 width) value_error >> ok m

unfoldable pub aggregate : ZamletParams → SyncAggOp → ℕ → ℕ → List ℕ → Result ℕ
aggregate params agg_min width v vs = signed width (min_by (sign_key width) v vs)
aggregate params agg_minu width v vs = ok (min_by (λ t. t) v vs)
aggregate params agg_max width v vs = signed width (max_by (sign_key width) v vs)
aggregate params agg_maxu width v vs = ok (max_by (λ t. t) v vs)
aggregate params agg_and width v vs = ok (all_and v vs)
aggregate params agg_or width v vs = ok (all_or 0 (v ∷ vs))
aggregate params agg_min_pair width v vs =
    ok (bit_or (min_or 0 (lows (v ∷ vs))) (min_or 7 (highs (v ∷ vs)) * 512))
aggregate params agg_min_fault_info width v vs = ok (min_by (fault_index params) v vs)

unfoldable pub aggregate_present : ZamletParams → SyncAggOp → ℕ → List ℕ → Result (Option ℕ)
aggregate_present params op width [] = ok none
aggregate_present params op width (v ∷ vs) =
    aggregate params op width v vs >>= λ result. ok (some result)

unfoldable pub aggregate_sync_values :
    ZamletParams → SyncAggOp → List (Option ℕ) → ℕ → Result (Option ℕ)
aggregate_sync_values params op values width = aggregate_present params op width (present values)
