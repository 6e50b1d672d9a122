-- ===== src/Lamlet/OrderedBuffer/Slots.antt =====
-- Elements of one window of the buffer have different slots.
use zamlet.Common.{
  ℕ, suc, ◌+◌, ◌*◌, ◌/◌, ◌%◌, ◌≤◌, ◌<◌, ◌≡◌, ◌≢◌, sym, ap₂, ◌∙◌, arith, ltb, Option, none, List,
  length, set, get_or-set_self, get_or-set_ne, inl, inr, Bool-cases, ltb→lt, leb, leb→le,
}
use native.Mathlib.Nat.{mod-lt, div-add-mod, mul-le-mul_left, mul-suc}
use zamlet.Lamlet.OrderedBuffer.{ElementEntry, entry_in}

pub slot_injective : (c i j : ℕ) → i ≤ j → j < i + c → i % c ≡ j % c → i ≡ j
slot_injective c i j le near same = elim (Bool-cases (ltb (i / c) (j / c))) [
  | inl less ↦
      let grown = mul-le-mul_left {m = suc (i / c)} {n = j / c} c (ltb→lt (i / c) (j / c) less) in
      absurd (omega (arith, grown, mul-suc c (i / c), div-add-mod i c, div-add-mod j c, same))
  | inr no_less ↦ elim (Bool-cases (ltb (j / c) (i / c))) [
    | inl more ↦
        let grown = mul-le-mul_left {m = suc (j / c)} {n = i / c} c (ltb→lt (j / c) (i / c) more) in
        absurd (omega (arith, grown, mul-suc c (j / c), div-add-mod i c, div-add-mod j c, same))
    | inr no_more ↦
        let even : i / c ≡ j / c = ground arith in
        sym (div-add-mod i c) ∙ ap₂ (λ (q r : ℕ). c * q + r) even same ∙ div-add-mod j c
  ]
]

-- What the write of a slot shows: the elements of a window that starts at `base` have slots of
-- their own.
pub entry_in-set_self :
    (c : ℕ) (elements : List (Option ElementEntry)) (i : ℕ) (v : Option ElementEntry)
    → 0 < c
    → length elements ≡ c
    → entry_in c (set elements (i % c) v) i ≡ v
entry_in-set_self c elements i v pos len =
    get_or-set_self elements (i % c) v none (omega (arith, mod-lt i pos, len))

pub entry_in-set_ne :
    (c : ℕ) (elements : List (Option ElementEntry)) (i j : ℕ) (v : Option ElementEntry)
    → i ≢ j
    → i < j + c
    → j < i + c
    → entry_in c (set elements (i % c) v) j ≡ entry_in c elements j
entry_in-set_ne c elements i j v apart near near' =
    get_or-set_ne elements (i % c) (j % c) v none (λ same. apart (elim (Bool-cases (leb i j)) [
      | inl le ↦ slot_injective c i j (leb→le i j le) near' same
      | inr gt ↦ sym (slot_injective c j i (ground arith) near (sym same))
    ]))
