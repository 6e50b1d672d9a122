-- ===== src/Kamlet/RenameTable/Invariant.antt =====
-- The invariant that the class comment of python/zamlet/kamlet/rename_table.py states, and the
-- methods.
use zamlet.Common.{
  ℕ, zero, suc, ◌+◌, ◌≤◌, ◌<◌, ◌≡◌, refl, ap, sym, subst, ◌∙◌, arith, ltb, lt→ltb, ◌==◌, ◌&&◌, Bool,
  true, false, if◌then◌else◌, List, [], ◌∷◌, ◌++◌, get_or, set, elem, remove, count, length,
  length-set, length-append, count-append, count-remove, count-elem, ok, Bool-cases, ok_unique, inl,
  inr,
}
use zamlet.Kamlet.RenameTable.{RenameTable, allocate_write, free_register, release_pending}

-- The physical registers that are mapped.
abbrev pub live : List Bool → List ℕ → List ℕ
live [] arch = []
live (v ∷ valid) [] = []
live (true ∷ valid) (r ∷ arch) = r ∷ live valid arch
live (false ∷ valid) (r ∷ arch) = live valid arch

abbrev pub one_if : Bool → ℕ
one_if true = 1
one_if false = 0

-- Every physical register is mapped once, or free once, or waits once; no other register is.
pub record IsPartition (t : RenameTable) : Type 0 where
  pub arch_length : length t.arch ≡ t.n_phys
  pub valid_length : length t.valid ≡ t.n_phys
  pub once :
      (r : ℕ)
      → count r (live t.valid t.arch) + count r t.free_queue + count r t.pending_free
        ≡ one_if (ltb r t.n_phys)
  pub total : length (live t.valid t.arch) + length t.free_queue + length t.pending_free ≡ t.n_phys

-- What a write to one entry does to the mapped registers.
count-live-set :
    (r : ℕ) (valid : List Bool) (arch : List ℕ) (i new : ℕ) (flag : Bool)
    → i < length valid
    → length valid ≡ length arch
    → count r (live (set valid i flag) (set arch i new))
        + one_if (get_or valid i false && (r == get_or arch i 0))
      ≡ count r (live valid arch) + one_if (flag && (r == new))
count-live-set r [] arch i new flag h e = absurd (omega arith)
count-live-set r (v ∷ valid) [] i new flag h e = absurd (omega arith)
count-live-set r (v ∷ valid) (a ∷ arch) zero new flag h e = ground arith
count-live-set r (v ∷ valid) (a ∷ arch) (suc i) new flag h e =
    ground (arith, count-live-set r valid arch i new flag (omega arith) (omega arith))

length-live-set :
    (valid : List Bool) (arch : List ℕ) (i new : ℕ) (flag : Bool)
    → i < length valid
    → length valid ≡ length arch
    → length (live (set valid i flag) (set arch i new)) + one_if (get_or valid i false)
      ≡ length (live valid arch) + one_if flag
length-live-set [] arch i new flag h e = absurd (omega arith)
length-live-set (v ∷ valid) [] i new flag h e = absurd (omega arith)
length-live-set (v ∷ valid) (a ∷ arch) zero new flag h e = ground arith
length-live-set (v ∷ valid) (a ∷ arch) (suc i) new flag h e =
    ground (arith, length-live-set valid arch i new flag (omega arith) (omega arith))

set-get_or : (xs : List ℕ) (i d : ℕ) → set xs i (get_or xs i d) ≡ xs
set-get_or [] i d = refl
set-get_or (x ∷ xs) zero d = refl
set-get_or (x ∷ xs) (suc i) d = ap (◌∷◌ x) (set-get_or xs i d)

-- A mapped register is counted among the mapped.
pub live-mapped :
    (valid : List Bool) (arch : List ℕ) (i : ℕ)
    → length valid ≡ length arch
    → get_or valid i false ≡ true
    → 0 < count (get_or arch i 0) (live valid arch)
live-mapped [] arch i e h = cc
live-mapped (v ∷ valid) [] i e h = absurd (omega arith)
live-mapped (v ∷ valid) (a ∷ arch) zero e h = ground arith
live-mapped (v ∷ valid) (a ∷ arch) (suc i) e h =
    ground (arith, live-mapped valid arch i (omega arith) h)

pub one_if-le : (b : Bool) → one_if b ≤ 1
one_if-le true = omega arith
one_if-le false = omega arith

pub not_elem : (r : ℕ) (xs : List ℕ) → count r xs ≡ 0 → elem r xs ≡ false
not_elem r xs h = elim (Bool-cases (elem r xs)) [
  | inl e ↦ absurd (omega (arith, count-elem r xs e))
  | inr e ↦ e
]

-- The assertions of `rotate_out` hold: a mapped register is neither free nor waiting.
pub mapped_elsewhere :
    (t : RenameTable) (arch_reg : ℕ)
    → IsPartition t
    → get_or t.valid arch_reg false ≡ true
    → (elem (get_or t.arch arch_reg 0) t.free_queue ≡ false)
      × (elem (get_or t.arch arch_reg 0) t.pending_free ≡ false)
mapped_elsewhere t arch_reg v h =
    let r = get_or t.arch arch_reg 0 in
    let m = live-mapped t.valid t.arch arch_reg (omega (arith, v.arch_length, v.valid_length)) h in
    let o = v.once r in
    let b = one_if-le (ltb r t.n_phys) in
    (not_elem r t.free_queue (omega arith), not_elem r t.pending_free (omega arith))

-- The table after a write to `arch_reg` that takes `new_phys` from the free queue.
abbrev pub assigned : RenameTable → ℕ → ℕ → List ℕ → RenameTable
assigned t arch_reg new_phys rest = record t {
  arch = set t.arch arch_reg new_phys;
  valid = set t.valid arch_reg true;
  free_queue = rest;
  pending_free =
      if get_or t.valid arch_reg false
      then get_or t.arch arch_reg 0 ∷ t.pending_free
      else t.pending_free;
}

-- The table after `arch_reg`, which was mapped, is freed.
abbrev pub unmapped : RenameTable → ℕ → RenameTable
unmapped t arch_reg = record t {
  valid = set t.valid arch_reg false;
  pending_free = get_or t.arch arch_reg 0 ∷ t.pending_free;
}

-- On a table that is a partition, `allocate_write` succeeds while a register is free: it yields the
-- head of the free queue, maps the name to it, and lets the register that the name was mapped to,
-- if any, wait.
pub allocate_write_lem :
    (t : RenameTable) (arch_reg new_phys : ℕ) (rest : List ℕ)
    → IsPartition t
    → arch_reg < t.n_phys
    → t.free_queue ≡ new_phys ∷ rest
    → allocate_write t arch_reg ≡ ok (assigned t arch_reg new_phys rest, new_phys)
unfolding allocate_write
allocate_write_lem t arch_reg new_phys rest v h e =
    elim (Bool-cases (get_or t.valid arch_reg false)) [
      | inl mapped ↦
          let (a, b) = mapped_elsewhere t arch_reg v mapped in
          rw (lt→ltb _ _ h, mapped, a, b, e) refl
      | inr free ↦ rw (lt→ltb _ _ h, free, e) refl
    ]

pub allocate_write-inv :
    (t : RenameTable) (arch_reg new_phys : ℕ) (t' : RenameTable)
    → allocate_write t arch_reg ≡ ok (t', new_phys)
    → (arch_reg < t.n_phys) × (t.free_queue ≡ new_phys ∷ t'.free_queue)
unfolding allocate_write
allocate_write-inv t arch_reg new_phys t' h = ground arith

assigned-IsPartition :
    (t : RenameTable) (arch_reg new_phys : ℕ) (rest : List ℕ)
    → IsPartition t
    → arch_reg < t.n_phys
    → t.free_queue ≡ new_phys ∷ rest
    → IsPartition (assigned t arch_reg new_phys rest)
assigned-IsPartition t i new rest v h e = record {
  arch_length = length-set t.arch i new ∙ v.arch_length;
  valid_length = length-set t.valid i true ∙ v.valid_length;
  once = λ r. ground (
    arith,
    v.once r,
    count-live-set r t.valid t.arch i new true (omega (arith, v.valid_length))
        (v.valid_length ∙ sym v.arch_length),
    ap (count r) e,
  );
  total = ground (
    arith,
    v.total,
    length-live-set t.valid t.arch i new true (omega (arith, v.valid_length))
        (v.valid_length ∙ sym v.arch_length),
    ap length e,
  );
}

-- It keeps the partition.
pub allocate_write-IsPartition :
    (t : RenameTable) (arch_reg new_phys : ℕ) (t' : RenameTable)
    → IsPartition t
    → allocate_write t arch_reg ≡ ok (t', new_phys)
    → IsPartition t'
allocate_write-IsPartition t arch_reg new_phys t' v h =
    let (bound, free) = allocate_write-inv t arch_reg new_phys t' h in
    let made = allocate_write_lem t arch_reg new_phys t'.free_queue v bound free in
    let e : assigned t arch_reg new_phys t'.free_queue ≡ t' = cc in
    subst IsPartition e (assigned-IsPartition t arch_reg new_phys t'.free_queue v bound free)

-- On a table that is a partition, `free_register` succeeds for every name in range: a mapped name
-- is unmapped and its register waits, and another name changes nothing.
pub free_register_lem :
    (t : RenameTable) (arch_reg : ℕ)
    → IsPartition t
    → arch_reg < t.n_phys
    → free_register t arch_reg
      ≡ ok (if get_or t.valid arch_reg false then unmapped t arch_reg else t)
unfolding free_register
free_register_lem t arch_reg v h = elim (Bool-cases (get_or t.valid arch_reg false)) [
  | inl mapped ↦
      let (a, b) = mapped_elsewhere t arch_reg v mapped in rw (lt→ltb _ _ h, mapped, a, b) refl
  | inr free ↦ rw (lt→ltb _ _ h, free) refl
]

unmapped-IsPartition :
    (t : RenameTable) (arch_reg : ℕ)
    → IsPartition t
    → arch_reg < t.n_phys
    → get_or t.valid arch_reg false ≡ true
    → IsPartition (unmapped t arch_reg)
unmapped-IsPartition t i v h mapped =
    let same = set-get_or t.arch i 0 in
    let bound : i < length t.valid = omega (arith, v.valid_length) in
    let lengths = v.valid_length ∙ sym v.arch_length in
    record {
      arch_length = v.arch_length;
      valid_length = length-set t.valid i false ∙ v.valid_length;
      once = λ r. ground (
        arith,
        v.once r,
        rw same at (count-live-set r t.valid t.arch i (get_or t.arch i 0) false bound lengths),
      );
      total = ground (
        arith,
        v.total,
        rw same at (length-live-set t.valid t.arch i (get_or t.arch i 0) false bound lengths),
      );
    }

free_register-inv :
    (t : RenameTable) (arch_reg : ℕ) (t' : RenameTable)
    → free_register t arch_reg ≡ ok t'
    → arch_reg < t.n_phys
unfolding free_register
free_register-inv t arch_reg t' h = ground arith

pub free_register-IsPartition :
    (t : RenameTable) (arch_reg : ℕ) (t' : RenameTable)
    → IsPartition t
    → free_register t arch_reg ≡ ok t'
    → IsPartition t'
free_register-IsPartition t arch_reg t' v h =
    let bound = free_register-inv t arch_reg t' h in
    let made = free_register_lem t arch_reg v bound in
    elim (Bool-cases (get_or t.valid arch_reg false)) [
      | inl mapped ↦
          let e : unmapped t arch_reg ≡ t' = cc (rw mapped at made) in
          subst IsPartition e (unmapped-IsPartition t arch_reg v bound mapped)
      | inr free ↦ let e : t ≡ t' = cc (rw free at made) in subst IsPartition e v
    ]

-- On a table that is a partition, `release_pending` of a waiting register succeeds and moves it to
-- the end of the free queue.
pub release_pending_lem :
    (t : RenameTable) (preg : ℕ)
    → IsPartition t
    → elem preg t.pending_free ≡ true
    → release_pending t preg
      ≡ ok (record t {
        pending_free = remove preg t.pending_free;
        free_queue = t.free_queue ++ (preg ∷ []);
      })
unfolding release_pending
release_pending_lem t preg v h =
    let one_at_most = one_if-le (ltb preg t.n_phys) in
    let waits = count-elem preg t.pending_free h in
    let not_free = not_elem preg t.free_queue (omega (arith, v.once preg)) in rw (h, not_free) refl

length-remove : (x : ℕ) (xs : List ℕ) → elem x xs ≡ true → suc (length (remove x xs)) ≡ length xs
length-remove x [] h = cc
length-remove x (y ∷ ys) h = ground (arith, length-remove x ys)

released-IsPartition :
    (t : RenameTable) (preg : ℕ)
    → IsPartition t
    → elem preg t.pending_free ≡ true
    → IsPartition (record t {
      pending_free = remove preg t.pending_free;
      free_queue = t.free_queue ++ (preg ∷ []);
    })
released-IsPartition t preg v h = record {
  arch_length = v.arch_length;
  valid_length = v.valid_length;
  once = λ r. ground (
    arith,
    v.once r,
    count-append r t.free_queue (preg ∷ []),
    count-remove r preg t.pending_free h,
  );
  total =
      ground (
        arith,
        v.total,
        length-append t.free_queue (preg ∷ []),
        length-remove preg t.pending_free h,
      );
}

release_pending-inv :
    (t : RenameTable) (preg : ℕ) (t' : RenameTable)
    → release_pending t preg ≡ ok t'
    → elem preg t.pending_free ≡ true
unfolding release_pending
release_pending-inv t preg t' h = ground arith

pub release_pending-IsPartition :
    (t : RenameTable) (preg : ℕ) (t' : RenameTable)
    → IsPartition t
    → release_pending t preg ≡ ok t'
    → IsPartition t'
release_pending-IsPartition t preg t' v h =
    let waits = release_pending-inv t preg t' h in
    let made = release_pending_lem t preg v waits in
    let e = ok_unique (sym made ∙ h) in subst IsPartition e (released-IsPartition t preg v waits)
