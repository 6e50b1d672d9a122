-- ===== src/Addresses/Tlb/Translate/Back.antt =====
-- From a global address to VPU memory and back, in python/zamlet/addresses.py.
use native.Mathlib.Nat.{mod-lt, div-div-eq-div-mul}
use zamlet.Common.{
  Error, or_raise, zero, suc, [], ◌∷◌, set, ℕ, ◌+◌, ◌-◌, ◌*◌, ◌/◌, ◌%◌, ◌≤◌, ◌<◌, ◌≡◌, refl, sym,
  subst, ap, ◌∙◌, arith, eq→==, Option, none, some, List, get_elem?, lookup, ok, index_error,
  assertion, assert-then, or_raise-then, >>=-eq-ok, ok_unique,
}
use zamlet.Params.{ZamletParams, vline_bytes, page_bytes}
use zamlet.Digits.{join-div, split-join}
use zamlet.Addresses.Vline.{VpuAddress}
use zamlet.Addresses.Tlb.{Tlb, PageInfo, VlineInfo, MemoryType, vline_infos, is_vpu_type}
use zamlet.Addresses.Tlb.Translate.{
  get_page, page_reference, get_page_info, get_vline_info, vline_index_of, to_vpu_addr,
  vpu_to_global_addr, get_page_info_from_vpu_addr,
}

-- The lines of a page, from the line `vi` of it on.
abbrev pub AreLines : ZamletParams → ℕ → ℕ → ℕ → List VlineInfo → Type 0
AreLines p global physical vi vlines =
    (i : ℕ) (v : VlineInfo)
    → get_elem? vlines i ≡ some v
    → (v.global_address ≡ global * 8 + (vi + i) * vline_bytes p * 8)
      × (v.local_address.bit_addr ≡ physical * 8 + (vi + i) * vline_bytes p * 8)

-- The page of an address as `allocate_memory` leaves it: the object stands in both dictionaries,
-- and its vector lines follow one another in both memories.
pub record IsResident (p : ZamletParams) (t : Tlb) (a r : ℕ) (info : PageInfo)
    (vlines : List VlineInfo) : Type 0 where
  pub in_pages : page_reference p t (get_page p a) ≡ ok r
  pub in_use : lookup info.physical_addr t.vpu_pool.in_use ≡ some r
  pub object : get_elem? t.objects r ≡ some info
  pub lines : info.vlines ≡ some vlines
  pub base : info.global_addr * 8 ≡ get_page p a
  pub aligned : info.physical_addr % page_bytes p ≡ 0
  pub line_at : AreLines p info.global_addr info.physical_addr 0 vlines

-- The arithmetic of one page.
in_page :
    (page a : ℕ)
    → 0 < page
    → (a / 8 / page * page * 8 ≤ a) × (a < a / 8 / page * page * 8 + page * 8)
in_page page a h = omega (arith, split-join (a / 8) page, mod-lt (a / 8) h)

page_found :
    (page phys rest : ℕ)
    → 0 < page
    → rest < page * 8
    → phys % page ≡ 0
    → (phys * 8 + rest) / page / 8 * page ≡ phys
page_found page phys rest h small e =
    let whole : phys / page * page ≡ phys = omega (arith, split-join phys page) in
    let spread : phys / page * (page * 8) ≡ phys / page * page * 8 = omega arith in
    let rows : phys * 8 + rest ≡ phys / page * (page * 8) + rest = omega (arith, whole, spread) in
    rw
      (
        div-div-eq-div-mul (phys * 8 + rest) page 8,
        rows,
        join-div rest (phys / page) (page * 8) small,
      )
      whole

found_or_raised : {A : Type 0} (o : Option A) (e : Error) (x : A) → or_raise o e ≡ ok x → o ≡ some x
found_or_raised none e x h = cc
found_or_raised (some y) e x h = ap some (ok_unique h)

module _ (p : ZamletParams) (t : Tlb) (a r : ℕ) (info : PageInfo) (vlines : List VlineInfo)
    (page_pos : 0 < page_bytes p) (here : IsResident p t a r info vlines) where
  -- The vector line that the page has for the address.
  line_lem :
      (line : VlineInfo)
      → get_vline_info p t a ≡ ok line
      → get_elem? vlines (vline_index_of p a) ≡ some line
  unfolding get_vline_info get_page_info
  line_lem line got =
      found_or_raised (get_elem? vlines (vline_index_of p a)) index_error line
        (rw (here.in_pages, here.object, here.lines) at got)

  -- The line starts at the address or before.
  line_start : get_page p a + vline_index_of p a * vline_bytes p * 8 ≤ a
  unfolding vline_index_of
  line_start =
      let n = a / 8 - get_page p a / 8 in
      let (low, _) = in_page (page_bytes p) a page_pos in
      omega (arith, low, split-join n (vline_bytes p))

  to_vpu_addr_lem :
      (v : VpuAddress)
      → to_vpu_addr p t a ≡ ok v
      → v.bit_addr ≡ info.physical_addr * 8 + (a - get_page p a)
  unfolding to_vpu_addr
  to_vpu_addr_lem v e =
      let (line, got, e₁) = >>=-eq-ok (get_vline_info p t a) _ e in
      let (_, e₂) = assert-then (is_vpu_type line.local_address.memory_type) _ e₁ in
      let (_, _, made) = or_raise-then line.local_address.ordering assertion _ e₂ in
      let (global, local) = here.line_at (vline_index_of p a) line (line_lem line got) in
      let bits : line.local_address.bit_addr / 8 * 8 + (a - line.global_address) ≡ v.bit_addr =
        ap (λ (x : VpuAddress). x.bit_addr) (ok_unique made) in
      omega (arith, bits, global, local, here.base, line_start)

  vpu_to_global_addr_lem :
      (v : VpuAddress) (rest : ℕ)
      → rest < page_bytes p * 8
      → v.bit_addr ≡ info.physical_addr * 8 + rest
      → vpu_to_global_addr p t v ≡ ok (info.global_addr * 8 + rest)
  unfolding vpu_to_global_addr get_page_info_from_vpu_addr
  vpu_to_global_addr_lem v rest small bits =
      let same : info.physical_addr * 8 / 8 ≡ info.physical_addr = omega arith in
      let left : info.physical_addr * 8 + rest - info.physical_addr * 8 ≡ rest = omega arith in
      rw
        (
          bits,
          page_found (page_bytes p) info.physical_addr rest page_pos small here.aligned,
          same,
          eq→== _ 0 here.aligned,
          here.in_use,
          here.object,
          left,
        )
        refl

  -- The VPU address of an address on the page is translated back to it.
  pub vpu_to_global-to_vpu :
      (v : VpuAddress) → to_vpu_addr p t a ≡ ok v → vpu_to_global_addr p t v ≡ ok a
  vpu_to_global-to_vpu v e =
      let (low, high) = in_page (page_bytes p) a page_pos in
      vpu_to_global_addr_lem v (a - get_page p a) (omega (arith, low, high)) (to_vpu_addr_lem v e)
      ∙ ap ok (omega (arith, here.base, low))

some_line : {u v : VlineInfo} → some u ≡ some v → u ≡ v
some_line e = cc

-- The lines that `PageInfo.__init__` makes.
pub vline_infos-AreLines :
    (p : ZamletParams) (memory_type : MemoryType) (global physical vi n : ℕ)
    → AreLines p global physical vi (vline_infos p memory_type global physical vi n)
unfolding vline_infos
vline_infos-AreLines p memory_type global physical vi zero i v e = cc
vline_infos-AreLines p memory_type global physical vi (suc n) zero v e =
    let same : vi + 0 ≡ vi = omega arith in
    rw same (
      ap (λ (x : VlineInfo). x.global_address) (sym (some_line e)),
      ap (λ (x : VlineInfo). x.local_address.bit_addr) (sym (some_line e)),
    )
vline_infos-AreLines p memory_type global physical vi (suc n) (suc i) v e =
    let next : vi + suc i ≡ suc vi + i = omega arith in
    rw next (vline_infos-AreLines p memory_type global physical (suc vi) n i v e)

-- A line may be written, its addresses apart.
pub set-AreLines :
    (p : ZamletParams) (global physical vi : ℕ) (vlines : List VlineInfo) (j : ℕ)
    (old new : VlineInfo)
    → get_elem? vlines j ≡ some old
    → new.global_address ≡ old.global_address
    → new.local_address.bit_addr ≡ old.local_address.bit_addr
    → AreLines p global physical vi vlines
    → AreLines p global physical vi (set vlines j new)
set-AreLines p global physical vi [] j old new at g b lines i v e = cc
set-AreLines p global physical vi (line ∷ rest) zero old new at g b lines zero v e =
    let (is_global, is_local) = lines 0 old at in
    subst
      (λ (x : VlineInfo).
        (x.global_address ≡ global * 8 + (vi + 0) * vline_bytes p * 8)
        × (x.local_address.bit_addr ≡ physical * 8 + (vi + 0) * vline_bytes p * 8))
      (some_line e) (g ∙ is_global, b ∙ is_local)
set-AreLines p global physical vi (line ∷ rest) zero old new at g b lines (suc i) v e =
    lines (suc i) v e
set-AreLines p global physical vi (line ∷ rest) (suc j) old new at g b lines zero v e = lines 0 v e
set-AreLines p global physical vi (line ∷ rest) (suc j) old new at g b lines (suc i) v e =
    let next : vi + suc i ≡ suc vi + i = omega arith in
    rw next (set-AreLines p global physical (suc vi) rest j old new at g b tail i v e)
  where
    tail : AreLines p global physical (suc vi) rest
    tail i v e = let next : suc vi + i ≡ vi + suc i = omega arith in rw next (lines (suc i) v e)
