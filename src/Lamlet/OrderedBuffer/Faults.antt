-- ===== src/Lamlet/OrderedBuffer/Faults.antt =====
-- The fault that the ordered buffer keeps.
use zamlet.Common.{
  ℕ, ◌≤◌, ◌≡◌, ◌⊎◌, refl, ap, ◌∙◌, arith, ltb, ltb→lt, Bool-cases, inl, inr, Option, none, some,
  List, [], ◌∷◌,
}
use zamlet.Network.Sync.{VectorFaultInfo}
use zamlet.Lamlet.OrderedBuffer.{
  OrderedBuffer, earlier_fault, record_fault, faulted_element, fault_index,
}

-- Faults as they are found.
abbrev pub record_faults : OrderedBuffer → List VectorFaultInfo → OrderedBuffer
record_faults b [] = b
record_faults b (f ∷ fs) = record_faults (record_fault b f) fs

abbrev pub OneOf : VectorFaultInfo → List VectorFaultInfo → Type 0
OneOf g [] = ⊥
OneOf g (f ∷ fs) = (g ≡ f) ⊎ OneOf g fs

abbrev pub NoneBefore : ℕ → List VectorFaultInfo → Type 0
NoneBefore n [] = Unit {0}
NoneBefore n (f ∷ fs) = (n ≤ f.element_index) × NoneBefore n fs

-- From a buffer with a fault: the earliest of it and those that are found.
earliest_of :
    (b : OrderedBuffer) (f : VectorFaultInfo) (fs : List VectorFaultInfo)
    → b.fault_info ≡ some f
    → (g : VectorFaultInfo) × ((record_faults b fs).fault_info ≡ some g)
      × OneOf g (f ∷ fs)
      × NoneBefore (g.element_index) (f ∷ fs)
unfolding record_fault
earliest_of b f [] e = (f, e, inl refl, (omega arith, tt))
earliest_of b f (h ∷ fs) e = elim (Bool-cases (ltb (h.element_index) (f.element_index))) [
  | inl earlier ↦
      let (g, e', m, (le, rest)) =
        earliest_of (record_fault b h) h fs
          (ap (λ o. some (earlier_fault h o)) e ∙ rw earlier refl) in
      (
        g,
        e',
        inr m,
        (omega (arith, le, ltb→lt (h.element_index) (f.element_index) earlier), (le, rest)),
      )
  | inr later ↦
      let (g, e', m, (le, rest)) =
        earliest_of (record_fault b h) f fs
          (ap (λ o. some (earlier_fault h o)) e ∙ rw later refl) in
      (g, e', skip g m, (le, (ground arith, rest)))
]
  where
    skip : (g : VectorFaultInfo) → OneOf g (f ∷ fs) → OneOf g (f ∷ h ∷ fs)
    skip g (inl same) = inl same
    skip g (inr m) = inr (inr m)

-- After one fault or more is recorded in a buffer without one, the faulted element is that of one
-- of them, and none of them is of an earlier element.
pub record_faults_lem :
    (b : OrderedBuffer) (f : VectorFaultInfo) (fs : List VectorFaultInfo)
    → faulted_element b ≡ none
    → (g : VectorFaultInfo) × (faulted_element (record_faults b (f ∷ fs)) ≡ some (g.element_index))
      × OneOf g (f ∷ fs)
      × NoneBefore (g.element_index) (f ∷ fs)
unfolding record_fault
record_faults_lem b f fs e =
    let (g, e', m, least) = earliest_of (record_fault b f) f fs (first (b.fault_info) e) in
    (g, ap fault_index e', m, least)
  where
    first :
        (old : Option VectorFaultInfo)
        → fault_index old ≡ none
        → ◌≡◌ {A = Option VectorFaultInfo} (some (earlier_fault f old)) (some f)
    first none e = refl
    first (some x) e = cc
