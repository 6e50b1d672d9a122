-- ===== src/Kamlet/RenameTable/Runs.antt =====
-- Histories of the rename table of python/zamlet/kamlet/rename_table.py: what holds after any of
-- them, and what a reader of a name gets.
use zamlet.Common.{
  ℕ, zero, suc, ◌+◌, ◌-◌, ◌≤◌, ◌<◌, ◌≡◌, refl, ap, sym, subst, ◌∙◌, arith, ltb, leb, lt→ltb, ltb→lt,
  ◌==◌, ◌&&◌, Bool, true, false, if◌then◌else◌, List, [], ◌∷◌, ◌++◌, get_or, replicate, range, elem,
  count, length, length-append, length-range, length-replicate, get_or-set_self, get_or-set_ne,
  Result, ok, ◌>>=◌, >>=-eq-ok, inl, inr, ==_refl, ne→==, Bool-cases, ok_unique,
}
use native.Mathlib.Decide.{dec_lt, ℕ_discrete}
use zamlet.Params.{ZamletParams}
use zamlet.Kamlet.RenameTable.{
  RenameTable, n_arch_vregs, init, lookup_read, allocate_write, free_register, release_pending,
}
use zamlet.Kamlet.RenameTable.Invariant.{
  IsPartition, live, one_if, one_if-le, live-mapped, not_elem, assigned, allocate_write_lem,
  allocate_write-inv, allocate_write-IsPartition, free_register-IsPartition,
  release_pending-IsPartition,
}

count-range : (r start n : ℕ) → count r (range start n) ≡ one_if (leb start r && ltb r (start + n))
count-range r start zero = ground arith
count-range r start (suc n) = ground (arith, count-range r (start + 1) n)

-- At first the names of the architecture are mapped, each to the register of its number.
live-init :
    (k m n start : ℕ)
    → n ≡ k + m
    → live (replicate k true ++ replicate m false) (range start n) ≡ range start k
live-init zero zero n start e = refl
live-init zero (suc m) zero start e = absurd (omega arith)
live-init zero (suc m) (suc n) start e = live-init zero m n (start + 1) (omega arith)
live-init (suc k) m zero start e = absurd (omega arith)
live-init (suc k) m (suc n) start e = ap (◌∷◌ start) (live-init k m n (start + 1) (omega arith))

-- The table of `__init__`.
abbrev pub fresh : ℕ → RenameTable
fresh n = record {
  n_phys = n;
  arch = range 0 n;
  valid = replicate n_arch_vregs true ++ replicate (n - n_arch_vregs) false;
  free_queue = range n_arch_vregs (n - n_arch_vregs);
  pending_free = [];
}

pub fresh-IsPartition : (n : ℕ) → n_arch_vregs < n → IsPartition (fresh n)
fresh-IsPartition n h =
    let mapped = live-init n_arch_vregs (n - n_arch_vregs) n 0 (omega arith) in
    record {
      arch_length = length-range 0 n;
      valid_length =
          length-append (replicate n_arch_vregs true) (replicate (n - n_arch_vregs) false)
          ∙ omega (arith, length-replicate (n - n_arch_vregs) false);
      once = λ r.
          rw (mapped, count-range r 0 n_arch_vregs, count-range r n_arch_vregs (n - n_arch_vregs))
            (ground arith);
      total = rw (mapped, length-range n_arch_vregs (n - n_arch_vregs)) (omega arith);
    }

pub init-IsPartition : (p : ZamletParams) (t : RenameTable) → init p ≡ ok t → IsPartition t
unfolding init
init-IsPartition p t h = elim (Bool-cases (ltb n_arch_vregs p.n_vregs)) [
  | inl enough ↦
      subst IsPartition (ok_unique (rw enough at h))
        (fresh-IsPartition p.n_vregs (ltb→lt _ _ enough))
  | inr few ↦ let k = rw few at h in absurd (cc)
]

pub data Call : Type 0 where
  allocate free release : ℕ → Call

-- One call of a method; a call that fails ends the history.
unfoldable pub step : RenameTable → Call → Result RenameTable
step t (allocate arch_reg) = allocate_write t arch_reg >>= λ r. ok r.0
step t (free arch_reg) = free_register t arch_reg
step t (release preg) = release_pending t preg

unfoldable pub run : RenameTable → List Call → Result RenameTable
run t [] = ok t
run t (c ∷ cs) = step t c >>= λ t'. run t' cs

step-IsPartition :
    (t : RenameTable) (c : Call) (t' : RenameTable)
    → IsPartition t
    → step t c ≡ ok t'
    → IsPartition t'
unfolding step
step-IsPartition t (allocate arch_reg) t' v h =
    let (r, done, e) = >>=-eq-ok (allocate_write t arch_reg) (λ r. ok r.0) h in
    subst IsPartition (ok_unique e) (allocate_write-IsPartition t arch_reg r.1 r.0 v done)
step-IsPartition t (free arch_reg) t' v h = free_register-IsPartition t arch_reg t' v h
step-IsPartition t (release preg) t' v h = release_pending-IsPartition t preg t' v h

run-IsPartition :
    (t : RenameTable) (cs : List Call) (t' : RenameTable)
    → IsPartition t
    → run t cs ≡ ok t'
    → IsPartition t'
unfolding run
run-IsPartition t [] t' v h = subst IsPartition (ok_unique h) v
run-IsPartition t (c ∷ cs) t' v h =
    let (u, s, rest) = >>=-eq-ok (step t c) (λ t'. run t' cs) h in
    run-IsPartition u cs t' (step-IsPartition t c u v s) rest

-- After any history of calls of the rename table that all succeed, from the table that the
-- constructor makes, every physical register is mapped by one name, or is free once, or waits once,
-- and no other register occurs.
pub run-init-IsPartition :
    (p : ZamletParams) (cs : List Call) (t t' : RenameTable)
    → init p ≡ ok t
    → run t cs ≡ ok t'
    → IsPartition t'
run-init-IsPartition p cs t t' h r = run-IsPartition t cs t' (init-IsPartition p t h) r

lookup_read-inv :
    (t : RenameTable) (a r : ℕ)
    → lookup_read t a ≡ ok r
    → (a < t.n_phys) × (get_or t.valid a false ≡ true) × (get_or t.arch a 0 ≡ r)
unfolding lookup_read
lookup_read-inv t a r h = ground arith

-- A register to which two names are mapped is counted twice.
live_twice :
    (valid : List Bool) (arch : List ℕ) (i j r : ℕ)
    → length valid ≡ length arch
    → i < j
    → get_or valid i false ≡ true
    → get_or valid j false ≡ true
    → get_or arch i 0 ≡ r
    → get_or arch j 0 ≡ r
    → 2 ≤ count r (live valid arch)
live_twice [] arch i j r e h vi vj ri rj = cc
live_twice (v ∷ valid) [] i j r e h vi vj ri rj = absurd (omega arith)
live_twice (v ∷ valid) (a ∷ arch) i zero r e h vi vj ri rj = absurd (omega arith)
live_twice (v ∷ valid) (a ∷ arch) zero (suc j) r e h vi vj ri rj =
    ground (arith, live-mapped valid arch j (omega arith) vj)
live_twice (v ∷ valid) (a ∷ arch) (suc i) (suc j) r e h vi vj ri rj =
    ground (arith, live_twice valid arch i j r (omega arith) (omega arith) vi vj ri rj)

-- In a table that is a partition, two names that `lookup_read` maps to one register are the same
-- name.
pub lookup_read-injective :
    (t : RenameTable) (a b r : ℕ)
    → IsPartition t
    → lookup_read t a ≡ ok r
    → lookup_read t b ≡ ok r
    → a ≡ b
lookup_read-injective t a b r v ha hb = elim (dec_lt a b) [
  | yes p ↦ absurd (clash a b p (lookup_read-inv t a r ha) (lookup_read-inv t b r hb))
  | no p ↦ elim (dec_lt b a) [
    | yes q ↦ absurd (clash b a q (lookup_read-inv t b r hb) (lookup_read-inv t a r ha))
    | no q ↦ omega arith
  ]
]
  where
    clash :
        (i j : ℕ)
        → i < j
        → (i < t.n_phys) × (get_or t.valid i false ≡ true) × (get_or t.arch i 0 ≡ r)
        → (j < t.n_phys) × (get_or t.valid j false ≡ true) × (get_or t.arch j 0 ≡ r)
        → ⊥
    clash i j h mi mj =
        let twice =
          live_twice t.valid t.arch i j r (v.valid_length ∙ sym v.arch_length) h mi.1 mj.1 mi.2
            mj.2 in
        omega (arith, twice, v.once r, one_if-le (ltb r t.n_phys))

read_assigned :
    (t : RenameTable) (a b new : ℕ) (rest : List ℕ)
    → IsPartition t
    → a < t.n_phys
    → lookup_read (assigned t a new rest) b ≡ (if b == a then ok new else lookup_read t b)
unfolding lookup_read
read_assigned t a b new rest v h = elim (ℕ_discrete a b) [
  | yes e ↦ rw (← e) (
      rw
        (
          lt→ltb _ _ h,
          get_or-set_self t.valid a true false (omega (arith, v.valid_length)),
          get_or-set_self t.arch a new 0 (omega (arith, v.arch_length)),
          ==_refl a,
        )
        refl)
  | no ne ↦
      rw
        (
          get_or-set_ne t.valid a b true false ne,
          get_or-set_ne t.arch a b new 0 ne,
          ne→== b a (λ e. ne (sym e)),
        )
        refl
]

-- After a write by `allocate_write` to a table that is a partition, `lookup_read` gives the new
-- register for the name that was written, and for every other name what it gave before, errors
-- included.
pub lookup_read-allocate_write :
    (t : RenameTable) (a b new : ℕ) (t' : RenameTable)
    → IsPartition t
    → allocate_write t a ≡ ok (t', new)
    → lookup_read t' b ≡ (if b == a then ok new else lookup_read t b)
lookup_read-allocate_write t a b new t' v h =
    let (bound, queue) = allocate_write-inv t a new t' h in
    let made = allocate_write_lem t a new t'.free_queue v bound queue in
    let e : assigned t a new t'.free_queue ≡ t' = cc in
    subst (λ u. lookup_read u b ≡ (if b == a then ok new else lookup_read t b)) e
      (read_assigned t a b new t'.free_queue v bound)

-- In a table that is a partition, a register that `lookup_read` gives exists and is neither free
-- nor waiting.
pub lookup_read_not_free :
    (t : RenameTable) (a r : ℕ)
    → IsPartition t
    → lookup_read t a ≡ ok r
    → (r < t.n_phys) × (elem r t.free_queue ≡ false) × (elem r t.pending_free ≡ false)
lookup_read_not_free t a r v h =
    let (bound, mapped, e) = lookup_read-inv t a r h in
    let m = live-mapped t.valid t.arch a (v.valid_length ∙ sym v.arch_length) mapped in
    let m' : 0 < count r (live t.valid t.arch) = rw e at m in
    let o = v.once r in
    let b = one_if-le (ltb r t.n_phys) in
    (
      ground (arith, o, m'),
      not_elem r t.free_queue (omega arith),
      not_elem r t.pending_free (omega arith),
    )
