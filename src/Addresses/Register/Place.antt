-- ===== src/Addresses/Register/Place.antt =====
-- The place of a byte of a vector register: `RegAddr` of python/zamlet/addresses.py.
use native.Mathlib.Nat.{mod-lt, div-lt_iff_lt-mul, mul_comm, mul_assoc}
use zamlet.Common.{
  ℕ, ◌+◌, ◌*◌, ◌/◌, ◌%◌, ◌<◌, ◌≡◌, sym, subst, subst₂, ap, ◌∙◌, arith, ok, assert-then, >>=-eq-ok,
  ok_unique,
}
use zamlet.Params.{ZamletParams, j_in_l, vline_bytes}
use zamlet.Digits.{split-join, join-mod, join-div, join_lt}
use zamlet.Addresses.Register.{RegAddr, valid, eb, element_index, vw_index, offset_in_word}

module _ (p : ZamletParams) where
  open p use {word_bytes}

  -- The vector word and the offset in the word that `RegAddr` computes for a valid byte determine
  -- the byte, and the offset is inside the word, where a word is a whole number of elements.
  pub vw_index-offset_in_word :
      (r : RegAddr) (vw offset elements : ℕ)
      → 0 < j_in_l p
      → 0 < eb p r
      → word_bytes ≡ elements * eb p r
      → vw_index p r ≡ ok vw
      → offset_in_word p r ≡ ok offset
      → ((offset / eb p r * j_in_l p + vw) * eb p r + offset % eb p r ≡ r.addr)
        × (offset < word_bytes)
  unfolding vw_index offset_in_word element_index
  vw_index-offset_in_word r vw offset elements grid positive whole is_vw is_offset =
      let (is_valid, e₁) = assert-then (valid p r) _ is_offset in
      let (index, is_index, e₂) = >>=-eq-ok (element_index p r) _ e₁ in
      let (_, e₃) = assert-then (valid p r) (ok (r.addr / eb p r)) is_index in
      let index_eq : r.addr / eb p r ≡ index = ok_unique e₃ in
      let offset_eq : index / j_in_l p * eb p r + r.addr % eb p r ≡ offset = ok_unique e₂ in
      let (index', is_index', e₄) = >>=-eq-ok (element_index p r) _ is_vw in
      let same : index' ≡ index = ok_unique (sym is_index' ∙ is_index) in
      let vw_eq : index % j_in_l p ≡ vw = ap (λ t. t % j_in_l p) (sym same) ∙ ok_unique e₄ in
      let small = mod-lt r.addr positive in
      let in_element : offset % eb p r ≡ r.addr % eb p r =
        ap (λ t. t % eb p r) (sym offset_eq)
        ∙ join-mod (r.addr % eb p r) (index / j_in_l p) (eb p r) small in
      let row : offset / eb p r ≡ index / j_in_l p =
        ap (λ t. t / eb p r) (sym offset_eq)
        ∙ join-div (r.addr % eb p r) (index / j_in_l p) (eb p r) small in
      let in_line : r.addr < vline_bytes p = ground (arith, is_valid) in
      let bytes : r.addr < j_in_l p * elements * eb p r =
        subst (λ t. r.addr < t)
          (ap (λ t. j_in_l p * t) whole ∙ sym (mul_assoc (j_in_l p) elements (eb p r))) in_line in
      let below : r.addr / eb p r < elements * j_in_l p =
        (div-lt_iff_lt-mul positive).1 (omega (arith, bytes, mul_comm (j_in_l p) elements)) in
      let rows : index / j_in_l p < elements =
        (div-lt_iff_lt-mul grid).1 (subst (λ t. t < elements * j_in_l p) index_eq below) in
      (
        rw (row, in_element, sym vw_eq, split-join index (j_in_l p), sym index_eq)
            (split-join r.addr (eb p r)),
        subst₂ ◌<◌ offset_eq (sym whole)
            (join_lt (r.addr % eb p r) (index / j_in_l p) (eb p r) elements small rows),
      )
