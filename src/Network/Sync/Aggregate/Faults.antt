-- ===== src/Network/Sync/Aggregate/Faults.antt =====
-- The first fault that `aggregate_sync_values` of python/zamlet/synchronization.py finds among
-- packed ones.
use zamlet.Common.{
  ℕ, ◌≤◌, ◌≡◌, ◌⊎◌, inl, inr, refl, sym, subst, ap, ◌∙◌, arith, Option, none, some, List, [], ◌∷◌,
  ok,
}
use zamlet.Params.{ZamletParams}
use zamlet.Network.Sync.{VectorFaultInfo, pack_fault_info}
use zamlet.Network.Sync.Packing.{pack_fault_info-index}
use zamlet.Network.Sync.Aggregate.{
  agg_min_fault_info, fault_index, min_by, aggregate, aggregate_present, aggregate_sync_values,
}
use zamlet.Network.Sync.Aggregate.Extremes.{
  Contributes, Among, min_by_lem, present-Contributes, Contributes-present, present_some,
  AllFrom-Among,
}

-- A fault that one of the places found.
abbrev pub Found : VectorFaultInfo → List (Option VectorFaultInfo) → Type 0
Found f [] = ⊥
Found f (o ∷ os) = (o ≡ some f) ⊎ Found f os

-- The contributions are the faults, packed, and none where a place has none.
abbrev pub Packed : ZamletParams → List (Option VectorFaultInfo) → List (Option ℕ) → Type 0
Packed params [] [] = Unit {0}
Packed params [] (_ ∷ _) = ⊥
Packed params (_ ∷ _) [] = ⊥
Packed params (none ∷ fs) (v ∷ vs) = (v ≡ none) × Packed params fs vs
Packed params (some f ∷ fs) (none ∷ vs) = ⊥
Packed params (some f ∷ fs) (some v ∷ vs) = (pack_fault_info params f ≡ ok v) × Packed params fs vs

some_same : {f g : VectorFaultInfo} → some f ≡ some g → f ≡ g
some_same e = cc

nat_same : {u v : ℕ} → some u ≡ some v → u ≡ v
nat_same e = cc

-- Every fault has its contribution, and every contribution its fault.
Found-Contributes :
    (params : ZamletParams) (fs : List (Option VectorFaultInfo)) (vs : List (Option ℕ))
    (f : VectorFaultInfo)
    → Packed params fs vs
    → Found f fs
    → (v : ℕ) × (pack_fault_info params f ≡ ok v) × Contributes v vs
Found-Contributes params [] vs f h m = elim m [ ]
Found-Contributes params (o ∷ fs) [] f h m = elim h [ ]
Found-Contributes params (none ∷ fs) (v ∷ vs) f h (inl e) = cc
Found-Contributes params (none ∷ fs) (v ∷ vs) f (_, h) (inr m) =
    let (u, packed, given) = Found-Contributes params fs vs f h m in (u, packed, inr given)
Found-Contributes params (some g ∷ fs) (none ∷ vs) f h m = elim h [ ]
Found-Contributes params (some g ∷ fs) (some v ∷ vs) f (packed, _) (inl e) =
    (v, ap (pack_fault_info params) (sym (some_same e)) ∙ packed, inl refl)
Found-Contributes params (some g ∷ fs) (some v ∷ vs) f (_, h) (inr m) =
    let (u, packed, given) = Found-Contributes params fs vs f h m in (u, packed, inr given)

Contributes-Found :
    (params : ZamletParams) (fs : List (Option VectorFaultInfo)) (vs : List (Option ℕ)) (v : ℕ)
    → Packed params fs vs
    → Contributes v vs
    → (f : VectorFaultInfo) × (pack_fault_info params f ≡ ok v) × Found f fs
Contributes-Found params fs [] v h m = elim m [ ]
Contributes-Found params [] (o ∷ vs) v h m = elim h [ ]
Contributes-Found params (none ∷ fs) (o ∷ vs) v (absent, _) (inl e) = cc
Contributes-Found params (none ∷ fs) (o ∷ vs) v (_, h) (inr m) =
    let (f, packed, found) = Contributes-Found params fs vs v h m in (f, packed, inr found)
Contributes-Found params (some g ∷ fs) (none ∷ vs) v h m = elim h [ ]
Contributes-Found params (some g ∷ fs) (some u ∷ vs) v (packed, _) (inl e) =
    (g, packed ∙ ap ok (nat_same e), inl refl)
Contributes-Found params (some g ∷ fs) (some u ∷ vs) v (_, h) (inr m) =
    let (f, packed, found) = Contributes-Found params fs vs v h m in (f, packed, inr found)

-- Where the contributions are faults packed by `pack_fault_info`, with none at the places that have
-- no fault, and there is a fault, MIN_FAULT_INFO of `aggregate_sync_values` gives the packed form
-- of a fault that was found, and no fault that was found is of an earlier element.
pub aggregate_sync_values_fault :
    (params : ZamletParams) (fs : List (Option VectorFaultInfo)) (values : List (Option ℕ))
    (width : ℕ) (f : VectorFaultInfo)
    → Packed params fs values
    → Found f fs
    → (m : ℕ) × (first : VectorFaultInfo) × (aggregate_sync_values params agg_min_fault_info values
          width
        ≡ ok (some m))
      × (pack_fault_info params first ≡ ok m)
      × Found first fs
      × ((g : VectorFaultInfo) → Found g fs → first.element_index ≤ g.element_index)
unfolding aggregate_sync_values aggregate_present aggregate fault_index
aggregate_sync_values_fault params fs values width f packed found =
    let (v, _, given) = Found-Contributes params fs values f packed found in
    let (w, vs, e) = present_some values v given in
    let (among, least) = min_by_lem (fault_index params) w vs in
    let m = min_by (fault_index params) w vs in
    let (first, is_first, place) =
      Contributes-Found params fs values m packed
        (present-Contributes values m (subst (Among m) (sym e) among)) in
    (
      m,
      first,
      rw e refl,
      is_first,
      place,
      λ g h.
          let (u, is_u, gives) = Found-Contributes params fs values g packed h in
          let order =
            AllFrom-Among (fault_index params) _ u (w ∷ vs) least
              (subst (Among u) e (Contributes-present values u gives)) in
          omega (
            arith,
            order,
            pack_fault_info-index params first m is_first,
            pack_fault_info-index params g u is_u,
          ),
    )
