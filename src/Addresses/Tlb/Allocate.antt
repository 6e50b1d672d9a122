-- ===== src/Addresses/Tlb/Allocate.antt =====
-- `allocate_memory` and `release_memory` of python/zamlet/addresses.py.
use zamlet.Common.{
  ℕ, zero, suc, ◌+◌, ◌/◌, ◌%◌, ◌<◌, ◌≡◌, refl, sym, subst, ◌==◌, Bool, true, false, Option, none,
  some, lookup, get_elem?, length, ok, assert-then, or_raise-then, key_error, >>=-eq-ok, ok_unique,
}
use zamlet.Params.{ZamletParams, page_bytes}
use zamlet.Addresses.Tlb.{
  MemoryType, Tlb, PageInfo, empty_tlb, is_vpu_type, same_type, same_bool, take_page, put_in_use,
  drop_page, memory_limit, free_page, add_page, give_back, get_lowest_free_page, allocate_page,
  check_existing, ensure_page, allocate_loop, allocate_memory, release_page, release_loop,
  release_memory, init_page_info,
}
use zamlet.Addresses.Tlb.Pages.{IsPool, take_page-IsPool, drop_page-IsPool, no_pages-IsPool}

module _ (params : ZamletParams) where
  pub record IsTlb (t : Tlb) : Type 0 where
    pub vpu_pages : IsPool (page_bytes params) (memory_limit params true) t.vpu_pool
    pub scalar_pages : IsPool (page_bytes params) (memory_limit params false) t.scalar_pool

  pub empty_tlb-IsTlb : IsTlb empty_tlb
  empty_tlb-IsTlb = record {
    vpu_pages = no_pages-IsPool _ _ empty_tlb.vpu_pool refl refl refl;
    scalar_pages = no_pages-IsPool _ _ empty_tlb.scalar_pool refl refl refl;
  }

  free_page-IsTlb :
      (is_vpu : Bool) (t : Tlb) (got : ℕ × Tlb) (logical : ℕ) (info : PageInfo)
      → 0 < page_bytes params
      → IsTlb t
      → free_page params is_vpu t ≡ ok got
      → info.physical_addr ≡ got.0
      → IsTlb (add_page is_vpu logical info got.1)
  unfolding free_page add_page
  free_page-IsTlb true t got logical info h inv e here =
      let (taken, took, last) =
        >>=-eq-ok
          (take_page (page_bytes params) (memory_limit params true) t.vpu_pool
            t.vpu_pool.freed_pages)
          _ e in
      subst (λ g. info.physical_addr ≡ g.0 → IsTlb (add_page true logical info g.1))
        (ok_unique last)
        (λ w. record {
          vpu_pages =
              subst
                (λ x.
                  IsPool (page_bytes params) (memory_limit params true)
                    (put_in_use x (length t.objects) taken.1))
                (sym w)
                (take_page-IsPool _ _ t.vpu_pool taken.1 taken.0 (length t.objects)
                  t.vpu_pool.freed_pages h inv.vpu_pages refl took);
          scalar_pages = inv.scalar_pages;
        })
        here
  free_page-IsTlb false t got logical info h inv e here =
      let (taken, took, last) =
        >>=-eq-ok
          (take_page (page_bytes params) (memory_limit params false) t.scalar_pool
            t.scalar_pool.freed_pages)
          _ e in
      subst (λ g. info.physical_addr ≡ g.0 → IsTlb (add_page false logical info g.1))
        (ok_unique last)
        (λ w. record {
          scalar_pages =
              subst
                (λ x.
                  IsPool (page_bytes params) (memory_limit params false)
                    (put_in_use x (length t.objects) taken.1))
                (sym w)
                (take_page-IsPool _ _ t.scalar_pool taken.1 taken.0 (length t.objects)
                  t.scalar_pool.freed_pages h inv.scalar_pages refl took);
          vpu_pages = inv.vpu_pages;
        })
        here

  give_back-IsTlb :
      (is_vpu : Bool) (t t' : Tlb) (physical : ℕ)
      → IsTlb t
      → give_back is_vpu physical t ≡ ok t'
      → IsTlb t'
  unfolding give_back
  give_back-IsTlb true t t' physical inv e =
      let (pool, dropped, last) = >>=-eq-ok (drop_page physical t.vpu_pool) _ e in
      subst IsTlb (ok_unique last) (record {
        vpu_pages = drop_page-IsPool _ _ t.vpu_pool pool physical inv.vpu_pages dropped;
        scalar_pages = inv.scalar_pages;
      })
  give_back-IsTlb false t t' physical inv e =
      let (pool, dropped, last) = >>=-eq-ok (drop_page physical t.scalar_pool) _ e in
      subst IsTlb (ok_unique last) (record {
        vpu_pages = inv.vpu_pages;
        scalar_pages = drop_page-IsPool _ _ t.scalar_pool pool physical inv.scalar_pages dropped;
      })

  ensure_page-IsTlb :
      (t t' : Tlb) (logical : ℕ) (memory_type : MemoryType) (readable writable : Bool)
      (found : Option ℕ)
      → 0 < page_bytes params
      → IsTlb t
      → ensure_page params logical memory_type readable writable found t ≡ ok t'
      → IsTlb t'
  unfolding ensure_page allocate_page get_lowest_free_page check_existing init_page_info
  ensure_page-IsTlb t t' logical memory_type readable writable none h inv e =
      let (got, took, last) = >>=-eq-ok (free_page params (is_vpu_type memory_type) t) _ e in
      subst IsTlb (ok_unique last)
        (free_page-IsTlb (is_vpu_type memory_type) t got logical _ h inv took refl)
  ensure_page-IsTlb t t' logical memory_type readable writable (some r) h inv e =
      let (existing, found, e₁) = or_raise-then (get_elem? t.objects r) key_error _ e in
      let (_, e₂) = assert-then (same_type existing.memory_type memory_type) _ e₁ in
      let (_, e₃) = assert-then (same_bool existing.readable readable) _ e₂ in
      let (_, e₄) = assert-then (same_bool existing.writable writable) _ e₃ in
      subst IsTlb (ok_unique e₄) inv

  allocate_loop-IsTlb :
      (n : ℕ) (t t' : Tlb) (logical : ℕ) (memory_type : MemoryType) (readable writable : Bool)
      → 0 < page_bytes params
      → IsTlb t
      → allocate_loop params logical n memory_type readable writable t ≡ ok t'
      → IsTlb t'
  unfolding allocate_loop
  allocate_loop-IsTlb zero t t' logical memory_type readable writable h inv e =
      subst IsTlb (ok_unique e) inv
  allocate_loop-IsTlb (suc n) t t' logical memory_type readable writable h inv e =
      let (t₁, one, more) =
        >>=-eq-ok
          (ensure_page params logical memory_type readable writable (lookup logical t.pages) t) _
          e in
      allocate_loop-IsTlb n t₁ t' (logical + page_bytes params) memory_type readable writable h
        (ensure_page-IsTlb t t₁ logical memory_type readable writable (lookup logical t.pages) h inv
          one)
        more

  -- An `allocate_memory` that succeeds keeps, in VPU and in scalar memory, every page below the
  -- first unused one either in use or given back, once, with the first unused page aligned and
  -- within the memory.
  pub allocate_memory-IsTlb :
      (t t' : Tlb) (address size : ℕ) (memory_type : MemoryType) (readable writable : Bool)
      → 0 < page_bytes params
      → IsTlb t
      → allocate_memory params address size memory_type readable writable t ≡ ok t'
      → IsTlb t'
  unfolding allocate_memory
  allocate_memory-IsTlb t t' address size memory_type readable writable h inv e =
      let (_, done) = assert-then (size % page_bytes params == 0) _ e in
      allocate_loop-IsTlb (size / page_bytes params) t t' address memory_type readable writable h
        inv done

  release_page-IsTlb :
      (t t' : Tlb) (logical : ℕ) → IsTlb t → release_page params logical t ≡ ok t' → IsTlb t'
  unfolding release_page
  release_page-IsTlb t t' logical inv e =
      let (r, mapped, e₁) = or_raise-then (lookup logical t.pages) key_error _ e in
      let (info, found, e₂) = or_raise-then (get_elem? t.objects r) key_error _ e₁ in
      give_back-IsTlb (is_vpu_type info.memory_type) _ t' info.physical_addr
        (record { vpu_pages = inv.vpu_pages; scalar_pages = inv.scalar_pages }) e₂

  release_loop-IsTlb :
      (n : ℕ) (t t' : Tlb) (logical : ℕ)
      → IsTlb t
      → release_loop params logical n t ≡ ok t'
      → IsTlb t'
  unfolding release_loop
  release_loop-IsTlb zero t t' logical inv e = subst IsTlb (ok_unique e) inv
  release_loop-IsTlb (suc n) t t' logical inv e =
      let (t₁, one, more) = >>=-eq-ok (release_page params logical t) _ e in
      release_loop-IsTlb n t₁ t' (logical + page_bytes params)
        (release_page-IsTlb t t₁ logical inv one) more

  -- A `release_memory` that succeeds keeps, in both memories, every page below the first unused
  -- one either in use or given back, once.
  pub release_memory-IsTlb :
      (t t' : Tlb) (address size : ℕ)
      → IsTlb t
      → release_memory params address size t ≡ ok t'
      → IsTlb t'
  unfolding release_memory
  release_memory-IsTlb t t' address size inv e =
      let (_, done) = assert-then (size % page_bytes params == 0) _ e in
      release_loop-IsTlb (size / page_bytes params) t t' address inv done
