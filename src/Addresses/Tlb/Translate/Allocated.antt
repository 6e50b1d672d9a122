-- ===== src/Addresses/Tlb/Translate/Allocated.antt =====
-- A page that `allocate_memory` of python/zamlet/addresses.py has just made.
use zamlet.Common.{
  ℕ, ◌+◌, ◌*◌, ◌/◌, ◌%◌, ◌<◌, ◌≡◌, refl, sym, subst, ap, ◌∙◌, arith, ltb, leb, ◌==◌, eq→==, Bool,
  true, ◌&&◌, some, List, [], ◌∷◌, ◌++◌, length, get_elem?, lookup, lookup-insert, replicate, count,
  ok, guard-then, memory_error, >>=-eq-ok, ok_unique,
}
use zamlet.Params.{ZamletParams, page_bytes, vline_bytes}
use zamlet.Digits.{join-mod}
use zamlet.Addresses.Tlb.{
  Tlb, Pool, PageInfo, VlineInfo, vpu, take_page, free_page, get_lowest_free_page, init_page_info,
  vline_infos, add_page, put_in_use, allocate_page, memory_limit, n_page_lines,
}
use zamlet.Addresses.Tlb.Pages.{IsPool, one_if, one_if_some}
use zamlet.Addresses.Tlb.Allocate.{IsTlb}
use zamlet.Addresses.Tlb.Translate.{get_page, page_reference}
use zamlet.Addresses.Tlb.Translate.Back.{IsResident, vline_infos-AreLines}

-- Pages are handed out at multiples of their size.
taken_is_page :
    (bytes limit page : ℕ) (free : List ℕ) (pool pool' : Pool)
    → 0 < bytes
    → IsPool bytes limit pool
    → pool.freed_pages ≡ free
    → take_page bytes limit pool free ≡ ok (page, pool')
    → page % bytes ≡ 0
unfolding take_page
taken_is_page bytes limit page [] pool pool' h inv f e =
    let (_, taken) =
      guard-then (leb (pool.lowest_never_used_page + bytes) limit) memory_error _ e in
    let first : pool.lowest_never_used_page ≡ page = ap (λ (t : ℕ × Pool). t.0) (ok_unique taken) in
    ap (λ t. t % bytes) (sym first ∙ inv.aligned ∙ omega arith) ∙ join-mod 0 inv.n_used bytes h
taken_is_page bytes limit page (first ∷ rest) pool pool' h inv f e =
    let same : first ≡ page = ap (λ (t : ℕ × Pool). t.0) (ok_unique e) in
    let once : one_if_some (lookup first pool.in_use) + count first (first ∷ rest)
        ≡ one_if (first % bytes == 0 && ltb first pool.lowest_never_used_page) =
      subst
        (λ t.
          one_if_some (lookup first pool.in_use) + count first t
          ≡ one_if (first % bytes == 0 && ltb first pool.lowest_never_used_page))
        f (inv.once first) in
    subst (λ t. t % bytes ≡ 0) same (counted _ (first % bytes) _ once)
  where
    counted : (u m : ℕ) (b : Bool) → u + count first (first ∷ rest) ≡ one_if (m == 0 && b) → m ≡ 0
    counted u m b k = ground arith

last_elem {ℓ} : {A : Type ℓ} (xs : List A) (x : A) → get_elem? (xs ++ (x ∷ [])) (length xs) ≡ some x
last_elem [] x = refl
last_elem (y ∷ ys) x = last_elem ys x

module _ (p : ZamletParams) (t : Tlb) (logical a : ℕ) (readable writable : Bool) where
  abbrev new_page : ℕ → PageInfo
  new_page physical =
      init_page_info p vpu logical physical (replicate (n_page_lines p) true) readable writable

  abbrev new_lines : ℕ → List VlineInfo
  new_lines physical = vline_infos p vpu logical physical 0 (page_bytes p / vline_bytes p)

  add_page-IsResident :
      (physical : ℕ) (pool : Pool)
      → physical % page_bytes p ≡ 0
      → logical % page_bytes p ≡ 0
      → get_page p a ≡ logical * 8
      → IsResident p
          (add_page true logical (new_page physical) (record t { vpu_pool = pool }))
          a
          (length t.objects)
          (new_page physical)
          (new_lines physical)
  unfolding add_page put_in_use init_page_info page_reference
  add_page-IsResident physical pool aligned at_page here =
      let whole : logical * 8 / 8 ≡ logical = omega arith in
      record {
        in_pages =
            rw
              (
                here,
                whole,
                eq→== _ 0 at_page,
                lookup-insert logical logical (length t.objects) t.pages,
                eq→== logical logical refl,
              )
              refl;
        in_use =
            rw
              (
                lookup-insert physical physical (length t.objects) pool.in_use,
                eq→== physical physical refl,
              )
              refl;
        object = last_elem t.objects (new_page physical);
        lines = refl;
        base = sym here;
        aligned = aligned;
        line_at = vline_infos-AreLines p vpu logical physical 0 (page_bytes p / vline_bytes p);
      }

  -- A new page of VPU memory is resident for each of its addresses.
  pub allocate_page-IsResident :
      (t' : Tlb)
      → 0 < page_bytes p
      → IsTlb p t
      → logical % page_bytes p ≡ 0
      → get_page p a ≡ logical * 8
      → allocate_page p logical vpu readable writable t ≡ ok t'
      → (physical : ℕ) × IsResident p t' a
          (length t.objects)
          (new_page physical)
          (new_lines physical)
  unfolding allocate_page get_lowest_free_page free_page
  allocate_page-IsResident t' h inv at_page here e =
      let (got, took, last) = >>=-eq-ok (free_page p true t) _ e in
      let (taken, took', made) =
        >>=-eq-ok (take_page (page_bytes p) (memory_limit p true) t.vpu_pool t.vpu_pool.freed_pages)
          _ took in
      let aligned =
        taken_is_page (page_bytes p) (memory_limit p true) taken.0 _ t.vpu_pool taken.1 h
          inv.vpu_pages refl took' in
      let same : (taken.0, record t { vpu_pool = taken.1 }) ≡ got = ok_unique made in
      let resident =
        subst
          (λ (g : ℕ × Tlb).
            IsResident p (add_page true logical (new_page g.0) g.1) a (length t.objects)
              (new_page g.0) (new_lines g.0))
          same (add_page-IsResident taken.0 taken.1 aligned at_page here) in
      (
        got.0,
        subst (λ u. IsResident p u a (length t.objects) (new_page got.0) (new_lines got.0))
            (ok_unique last) resident,
      )
