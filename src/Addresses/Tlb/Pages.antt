-- ===== src/Addresses/Tlb/Pages.antt =====
-- The pages that the TLB of python/zamlet/addresses.py hands out and takes back.
use zamlet.Common.{
  ℕ, suc, ◌+◌, ◌-◌, ◌*◌, ◌%◌, ◌≤◌, ◌<◌, ◌≡◌, sym, subst, ap, ◌∙◌, arith, ltb, leb, leb→le, ◌==◌,
  ==→eq, Bool, Bool-cases, inl, inr, true, false, ◌&&◌, if◌then◌else◌, Option, none, some, List, [],
  ◌∷◌, ◌++◌, count, count-append, lookup, insert, erase, lookup-insert, lookup-erase, lookup_empty,
  ok, guard-then, or_raise-then, memory_error, key_error, ok_unique,
}
use zamlet.Digits.{join-mod}
use zamlet.Addresses.Tlb.{Pool, take_page, put_in_use, drop_page}

abbrev pub one_if : Bool → ℕ
one_if true = 1
one_if false = 0

abbrev pub one_if_some : Option ℕ → ℕ
one_if_some none = 0
one_if_some (some r) = 1

-- Every page below the first unused one is in use, or was given back once; nothing else is. The
-- pages are multiples of their size, within the memory.
pub record IsPool (bytes limit : ℕ) (pool : Pool) : Type 0 where
  pub n_used : ℕ
  pub aligned : pool.lowest_never_used_page ≡ n_used * bytes
  pub within : pool.lowest_never_used_page ≤ limit
  pub once :
      (page : ℕ)
      → one_if_some (lookup page pool.in_use) + count page pool.freed_pages
        ≡ one_if (page % bytes == 0 && ltb page pool.lowest_never_used_page)

module _ (bytes limit : ℕ) where
  -- The multiples below the next limit.
  next_page_lem :
      (p k : ℕ)
      → 0 < bytes
      → one_if (p % bytes == 0 && ltb p (k * bytes + bytes))
        ≡ (if p == k * bytes then 1 else 0) + one_if (p % bytes == 0 && ltb p (k * bytes))
  next_page_lem p k h =
      let at_start : (k * bytes + 0) % bytes ≡ 0 = join-mod 0 k bytes h in
      let start : (p ≡ k * bytes) → p % bytes ≡ 0 =
        λ e. ap (λ t. t % bytes) (e ∙ omega arith) ∙ at_start in
      let inside : (k * bytes ≤ p) → (p < k * bytes + bytes) → p % bytes ≡ p - k * bytes =
        λ a b. ap (λ t. t % bytes) (omega arith) ∙ join-mod (p - k * bytes) k bytes (omega arith) in
      ground (arith, start, inside)

  used_after :
      (p page reference : ℕ) (used : List (ℕ × ℕ))
      → one_if_some (lookup page used) ≡ 0
      → one_if_some (lookup p (insert page reference used))
        ≡ (if p == page then 1 else 0) + one_if_some (lookup p used)
  used_after p page reference used h =
      rw (lookup-insert p page reference used) (elim (Bool-cases (p == page)) [
        | inl same ↦
            let e : one_if_some (lookup p used) ≡ 0 = rw (==→eq p page same) h in
            rw (same) (omega arith)
        | inr other ↦ rw (other) (omega arith)
      ])

  not_below_itself : (n : ℕ) (b : Bool) → one_if (b && ltb n n) ≡ 0
  not_below_itself n b = ground arith

  -- A page just taken and put in use.
  pub take_page-IsPool :
      (pool pool' : Pool) (page reference : ℕ) (free : List ℕ)
      → 0 < bytes
      → IsPool bytes limit pool
      → pool.freed_pages ≡ free
      → take_page bytes limit pool free ≡ ok (page, pool')
      → IsPool bytes limit (put_in_use page reference pool')
  unfolding take_page put_in_use
  take_page-IsPool pool pool' page reference [] h inv f e =
      let next = pool.lowest_never_used_page in
      let (room, taken) = guard-then (leb (next + bytes) limit) memory_error _ e in
      let unused = inv.once next ∙ not_below_itself next (next % bytes == 0) in
      subst (λ t. IsPool bytes limit (put_in_use t.0 reference t.1)) (ok_unique taken)
        (record {
          n_used = suc inv.n_used;
          aligned = omega (arith, inv.aligned);
          within = leb→le (next + bytes) limit room;
          once = λ p.
              let step =
                subst
                  (λ t.
                    one_if (p % bytes == 0 && ltb p (t + bytes))
                    ≡ (if p == t then 1 else 0) + one_if (p % bytes == 0 && ltb p t))
                  (sym inv.aligned) (next_page_lem p inv.n_used h) in
              omega (
                arith,
                inv.once p,
                step,
                used_after p next reference pool.in_use (omega (arith, unused)),
              );
        })
  take_page-IsPool pool pool' page reference (first ∷ rest) h inv f e =
      let occurs : (p : ℕ)
          → one_if_some (lookup p pool.in_use) + count p (first ∷ rest)
            ≡ one_if (p % bytes == 0 && ltb p pool.lowest_never_used_page) =
        λ p.
          subst
            (λ t.
              one_if_some (lookup p pool.in_use) + count p t
              ≡ one_if (p % bytes == 0 && ltb p pool.lowest_never_used_page))
            f (inv.once p) in
      subst (λ t. IsPool bytes limit (put_in_use t.0 reference t.1)) (ok_unique e)
        (record {
          n_used = inv.n_used;
          aligned = inv.aligned;
          within = inv.within;
          once = λ p.
              let unused = unused_lem _ (occurs first) in
              omega (arith, occurs p, used_after p first reference pool.in_use unused);
        })
    where
      unused_lem : {u : ℕ} (b : Bool) → u + count first (first ∷ rest) ≡ one_if b → u ≡ 0
      unused_lem {u} b k = ground arith

  pub drop_page-IsPool :
      (pool pool' : Pool) (page : ℕ)
      → IsPool bytes limit pool
      → drop_page page pool ≡ ok pool'
      → IsPool bytes limit pool'
  unfolding drop_page
  drop_page-IsPool pool pool' page inv e =
      let (r, used, e') = or_raise-then (lookup page pool.in_use) key_error _ e in
      subst (IsPool bytes limit) (ok_unique e') (record {
        n_used = inv.n_used;
        aligned = inv.aligned;
        within = inv.within;
        once = λ p. dropped p r used ∙ inv.once p;
      })
    where
      dropped :
          (p r : ℕ)
          → lookup page pool.in_use ≡ some r
          → one_if_some (lookup p (erase page pool.in_use))
              + count p (pool.freed_pages ++ (page ∷ []))
            ≡ one_if_some (lookup p pool.in_use) + count p pool.freed_pages
      dropped p r used =
          rw (lookup-erase p page pool.in_use, count-append p pool.freed_pages (page ∷ []))
            (elim (Bool-cases (p == page)) [
              | inl same ↦ rw (same, ==→eq p page same, used) (omega arith)
              | inr other ↦ rw (other) (omega arith)
            ])

module _ (bytes limit : ℕ) where
  pub no_pages-IsPool :
      (pool : Pool)
      → pool.in_use ≡ []
      → pool.freed_pages ≡ []
      → pool.lowest_never_used_page ≡ 0
      → IsPool bytes limit pool
  no_pages-IsPool pool none_used none_freed unused = record {
    n_used = 0;
    aligned = omega arith;
    within = omega arith;
    once = λ page.
        rw (none_used, none_freed, unused, lookup_empty page)
          (nothing_below (page % bytes == 0) page);
  }
    where
      nothing_below : (b : Bool) (page : ℕ) → 0 ≡ one_if (b && ltb page 0)
      nothing_below b page = ground arith
