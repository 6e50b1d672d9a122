-- ===== src/Kamlet/RenameTable.antt =====
-- python/zamlet/kamlet/rename_table.py: architectural vector registers are mapped to physical ones.
-- A method that changes the table returns the new one; an assertion that fails ends the run, so
-- what it leaves behind is not modelled.
pub mod Invariant
pub mod Runs
mod Tests
use zamlet.Common.{
  ℕ, zero, suc, ◌+◌, ◌-◌, ltb, ◌&&◌, Bool, true, false, not, if◌then◌else◌, List, [], ◌∷◌, ◌++◌,
  get_or, set, replicate, range, elem, remove, Result, ok, err, assertion, assert, ◌>>=◌, ◌>>◌,
}
use zamlet.Params.{ZamletParams}

abbrev pub n_arch_vregs : ℕ
n_arch_vregs = 32

-- `pending_free` is a set in the source: a list that holds no register twice.
pub record RenameTable : Type 0 where
  pub n_phys : ℕ
  pub arch : List ℕ
  pub valid : List Bool
  pub free_queue : List ℕ
  pub pending_free : List ℕ

pub init : ZamletParams → Result RenameTable
init params = do
  let n_phys = params.n_vregs
  assert (ltb n_arch_vregs n_phys)
  ok (record {
    n_phys = n_phys;
    arch = range 0 n_phys;
    valid = replicate n_arch_vregs true ++ replicate (n_phys - n_arch_vregs) false;
    free_queue = range n_arch_vregs (n_phys - n_arch_vregs);
    pending_free = [];
  })

pub is_mapped : RenameTable → ℕ → Result Bool
is_mapped t arch_reg = do assert (ltb arch_reg t.n_phys); ok (get_or t.valid arch_reg false)

pub lookup_read : RenameTable → ℕ → Result ℕ
lookup_read t arch_reg = do
  assert (ltb arch_reg t.n_phys)
  assert (get_or t.valid arch_reg false)
  ok (get_or t.arch arch_reg 0)

-- The start of `allocate_write`, and `free_register` but for the flag: the register that
-- `arch_reg` was mapped to waits until no older instruction reads it.
rotate_out : RenameTable → ℕ → Result RenameTable
rotate_out t arch_reg = do
  let phys = get_or t.arch arch_reg 0
  assert (not (elem phys t.free_queue))
  assert (not (elem phys t.pending_free))
  ok (record t { pending_free = phys ∷ t.pending_free })

take_free : RenameTable → ℕ → List ℕ → Result (RenameTable × ℕ)
take_free t arch_reg [] = err assertion
take_free t arch_reg (new_phys ∷ rest) = ok (
  record t {
    arch = set t.arch arch_reg new_phys;
    valid = set t.valid arch_reg true;
    free_queue = rest;
  },
  new_phys,
)

pub allocate_write : RenameTable → ℕ → Result (RenameTable × ℕ)
unfolding rotate_out take_free
allocate_write t arch_reg = do
  assert (ltb arch_reg t.n_phys)
  t' ← if get_or t.valid arch_reg false then rotate_out t arch_reg else ok t
  take_free t' arch_reg t'.free_queue

-- Nothing to do for a register that is not mapped.
pub free_register : RenameTable → ℕ → Result RenameTable
unfolding rotate_out
free_register t arch_reg = do
  assert (ltb arch_reg t.n_phys)
  if get_or t.valid arch_reg false
      then (rotate_out t arch_reg >>= λ t'. ok (record t' { valid = set t'.valid arch_reg false }))
      else ok t

pub release_pending : RenameTable → ℕ → Result RenameTable
release_pending t preg = do
  assert (elem preg t.pending_free)
  assert (not (elem preg t.free_queue))
  ok (record t {
    pending_free = remove preg t.pending_free;
    free_queue = t.free_queue ++ (preg ∷ []);
  })
