-- ===== src/Addresses/Tlb/Translate/Written.antt =====
-- What the writes to a page's object in python/zamlet/addresses.py leave for the reads.
use zamlet.Common.{
  ℕ, zero, suc, ◌≡◌, refl, subst, ◌∙◌, List, [], ◌∷◌, some, get_elem?, set, Bool, ok, value_error,
  index_error, assertion, or_raise-then, >>=-eq-ok, ok_unique,
}
use zamlet.Params.{ZamletParams}
use zamlet.Addresses.Coords.{LineOrdering}
use zamlet.Addresses.Tlb.{Tlb, PageInfo, VlineInfo}
use zamlet.Addresses.Tlb.Translate.{
  get_page, page_reference, get_page_info, get_vline_info, set_vline_ordering, vline_index_of,
}

get_elem?-set {ℓ} :
    {A : Type ℓ} (xs : List A) (i : ℕ) (x v : A)
    → get_elem? xs i ≡ some x
    → get_elem? (set xs i v) i ≡ some v
get_elem?-set [] i x v e = cc
get_elem?-set (y ∷ ys) zero x v e = refl
get_elem?-set (y ∷ ys) (suc i) x v e = get_elem?-set ys i x v e

module _ (params : ZamletParams) where
  page_reference-objects :
      (t : Tlb) (objects : List PageInfo) (a : ℕ)
      → page_reference params (record t { objects = objects }) a ≡ page_reference params t a
  unfolding page_reference
  page_reference-objects t objects a = refl

  get_vline_info_lem :
      (t : Tlb) (a r : ℕ) (info : PageInfo) (vlines : List VlineInfo) (v : VlineInfo)
      → page_reference params t (get_page params a) ≡ ok r
      → get_elem? t.objects r ≡ some info
      → info.vlines ≡ some vlines
      → get_elem? vlines (vline_index_of params a) ≡ some v
      → get_vline_info params t a ≡ ok v
  unfolding get_vline_info get_page_info
  get_vline_info_lem t a r info vlines v is_r is_info is_vlines is_v =
      rw (is_r, is_info, is_vlines, is_v) refl

  -- Where `set_vline_ordering` succeeds, `get_vline_info` of the address succeeds before and
  -- after it, and differs by the ordering and the mark that were written only.
  pub get_vline_info-set_vline_ordering :
      (t t' : Tlb) (a : ℕ) (ordering : LineOrdering) (weak : Bool)
      → set_vline_ordering params t a ordering weak ≡ ok t'
      → (before after : VlineInfo) × (get_vline_info params t a ≡ ok before)
        × (get_vline_info params t' a ≡ ok after)
        × (after ≡ record before {
          local_address = record (before.local_address) { ordering = some ordering };
          weakly_ordered = weak;
        })
  unfolding set_vline_ordering
  get_vline_info-set_vline_ordering t t' a ordering weak e =
      let (r, is_r, e₁) = >>=-eq-ok (page_reference params t (get_page params a)) _ e in
      let (info, is_info, e₂) = or_raise-then (get_elem? t.objects r) value_error _ e₁ in
      let (vlines, is_vlines, e₃) = or_raise-then info.vlines assertion _ e₂ in
      let (before, is_before, e₄) =
        or_raise-then (get_elem? vlines (vline_index_of params a)) index_error _ e₃ in
      let written : VlineInfo = record before {
        local_address = record (before.local_address) { ordering = some ordering };
        weakly_ordered = weak;
      } in
      let page : PageInfo = record info {
        vlines = some (set vlines (vline_index_of params a) written);
      } in
      let still = page_reference-objects t (set (t.objects) r page) (get_page params a) ∙ is_r in
      let in_store = get_elem?-set t.objects r info page is_info in
      let in_page = get_elem?-set vlines (vline_index_of params a) before written is_before in
      subst
        (λ u.
          (before after : VlineInfo) × (get_vline_info params t a ≡ ok before)
          × (get_vline_info params u a ≡ ok after)
          × (after ≡ record before {
            local_address = record (before.local_address) { ordering = some ordering };
            weakly_ordered = weak;
          }))
        (ok_unique e₄)
        (
          before,
          written,
          get_vline_info_lem t a r info vlines before is_r is_info is_vlines is_before,
          get_vline_info_lem _ a r page (set vlines (vline_index_of params a) written) written still
              in_store refl in_page,
          refl,
        )
