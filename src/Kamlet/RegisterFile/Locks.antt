-- ===== src/Kamlet/RegisterFile/Locks.antt =====
-- The write locks of python/zamlet/register_file_slot.py and their holder.
use zamlet.Common.{
  ℕ, zero, suc, ◌≡◌, refl, sym, ok_unique, ◌∙◌, arith, true, List, [], ◌∷◌, Option, none, some,
  get_elem?, set, elem, ok, err, assertion, ◌⊎◌, inl, inr, ap, ◌≢◌, ==_refl, >>=-eq-ok,
}
use native.Mathlib.Decide.{ℕ_discrete}
use zamlet.Kamlet.RegisterFile.{RegisterFile, for_each, lock_read, lock_write, unlock_write, start}
use zamlet.Kamlet.RegisterFile.Exclusion.{lock_write-inv, some_unique, start_parts}

set_back :
    (ws : List (Option ℕ)) (i : ℕ) (v w : Option ℕ)
    → get_elem? ws i ≡ some w
    → set (set ws i v) i w ≡ ws
set_back [] i v w h = refl
set_back (x ∷ ws) zero v w h = ap (λ t. t ∷ ws) (sym (some_unique h))
set_back (x ∷ ws) (suc i) v w h = ap (◌∷◌ x) (set_back ws i v w h)

module _ {ℓ} {A : Type ℓ} where
  get_elem?-set_self :
      (xs : List A) (i : ℕ) {a : A} (v : A)
      → get_elem? xs i ≡ some a
      → get_elem? (set xs i v) i ≡ some v
  get_elem?-set_self [] i v h = cc
  get_elem?-set_self (x ∷ xs) zero v h = refl
  get_elem?-set_self (x ∷ xs) (suc i) v h = get_elem?-set_self xs i v h

  get_elem?-set_ne :
      (xs : List A) (i j : ℕ) (v : A) → i ≢ j → get_elem? (set xs i v) j ≡ get_elem? xs j
  get_elem?-set_ne [] i j v h = refl
  get_elem?-set_ne (x ∷ xs) zero zero v h = absurd (h refl)
  get_elem?-set_ne (x ∷ xs) zero (suc j) v h = refl
  get_elem?-set_ne (x ∷ xs) (suc i) zero v h = refl
  get_elem?-set_ne (x ∷ xs) (suc i) (suc j) v h = get_elem?-set_ne xs i j v (λ e. h (ap suc e))

-- After a write lock is taken, a read lock and a second write lock on the register are refused by
-- an assertion, and giving the lock back restores the file.
pub lock_write_lem :
    (token other : ℕ) (rf : RegisterFile) (reg : ℕ) (rf' : RegisterFile)
    → lock_write token rf reg ≡ ok rf'
    → (lock_read other rf' reg ≡ err assertion)
      × (lock_write other rf' reg ≡ err assertion)
      × (unlock_write token rf' reg ≡ ok rf)
unfolding lock_read lock_write unlock_write
lock_write_lem token other rf reg rf' h =
    let (free, found, e) = lock_write-inv token rf reg rf' h in
    let held = get_elem?-set_self rf.write reg (some token) free in
    rw e (
      rw held refl,
      rw (held, found) refl,
      rw (held, ==_refl token, set_back rf.write reg (some token) none free) refl,
    )

-- A register that `token` writes is still written by it after another of its locks.
lock_write_held :
    (token : ℕ) (rf : RegisterFile) (reg reg' : ℕ) (rf' : RegisterFile)
    → lock_write token rf reg' ≡ ok rf'
    → get_elem? rf.write reg ≡ some (some token)
    → get_elem? rf'.write reg ≡ some (some token)
lock_write_held token rf reg reg' rf' h k =
    let (free, found, e) = lock_write-inv token rf reg' rf' h in
    elim (ℕ_discrete reg' reg) [
      | yes same ↦ absurd (clash same free)
      | no other ↦ rw e (get_elem?-set_ne rf.write reg' reg (some token) other ∙ k)
    ]
  where
    clash : reg' ≡ reg → get_elem? rf.write reg' ≡ some none → ⊥
    clash e f = let g = rw e at f in cc

for_each_held :
    (token : ℕ) (regs : List ℕ) (rf rf' : RegisterFile) (reg : ℕ)
    → for_each (lock_write token) rf regs ≡ ok rf'
    → (get_elem? rf.write reg ≡ some (some token)) ⊎ (elem reg regs ≡ true)
    → get_elem? rf'.write reg ≡ some (some token)
unfolding for_each
for_each_held token [] rf rf' reg h (inl k) = rw (← ok_unique h) k
for_each_held token [] rf rf' reg h (inr k) = cc
for_each_held token (r ∷ regs) rf rf' reg h (inl k) =
    let (u, first, rest) =
      >>=-eq-ok (lock_write token rf r) (λ u. for_each (lock_write token) u regs) h in
    for_each_held token regs u rf' reg rest (inl (lock_write_held token rf reg r u first k))
for_each_held token (r ∷ regs) rf rf' reg h (inr k) =
    let (u, first, rest) =
      >>=-eq-ok (lock_write token rf r) (λ u. for_each (lock_write token) u regs) h in
    elim (ℕ_discrete reg r) [
      | yes same ↦ for_each_held token regs u rf' reg rest (inl (rw same (taken r u first)))
      | no other ↦ for_each_held token regs u rf' reg rest (inr (ground arith))
    ]
  where
    taken :
        (r : ℕ) (u : RegisterFile)
        → lock_write token rf r ≡ ok u
        → get_elem? u.write r ≡ some (some token)
    taken r u first =
        let (free, found, e) = lock_write-inv token rf r u first in
        rw e (get_elem?-set_self rf.write r (some token) free)

-- After a `start` that succeeds, every register to be written is locked for writing under the token
-- that was next.
pub start-holds :
    (rf : RegisterFile) (read_regs write_regs : List ℕ) (token : ℕ) (rf' : RegisterFile) (reg : ℕ)
    → start rf read_regs write_regs ≡ ok (token, rf')
    → elem reg write_regs ≡ true
    → get_elem? rf'.write reg ≡ some (some rf.next_token)
start-holds rf read_regs write_regs token rf' reg h k =
    let (u, w, first, second, e) = start_parts rf read_regs write_regs token rf' h in
    rw (← e) (for_each_held rf.next_token write_regs u w reg second (inr k))
