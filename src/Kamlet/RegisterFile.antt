-- ===== src/Kamlet/RegisterFile.antt =====
-- `KamletRegisterFile` of python/zamlet/register_file_slot.py: who reads and who writes each
-- register. A method returns the new file; the log messages are left out.
pub mod Exclusion
pub mod Locks
mod Tests
use zamlet.Common.{
  ℕ, suc, ◌+◌, ◌==◌, Bool, true, false, List, [], ◌∷◌, ◌++◌, Option, none, some, get_elem?, set,
  replicate, elem, remove, Result, ok, index_error, assert, or_raise, ◌>>=◌, ◌>>◌,
}

pub record RegisterFile : Type 0 where
  pub reads : List (List ℕ)
  pub write : List (Option ℕ)
  pub next_token : ℕ

pub init : ℕ → RegisterFile
init n_regs = record { reads = replicate n_regs []; write = replicate n_regs none; next_token = 0 }

pub get_token : RegisterFile → ℕ × RegisterFile
get_token rf = (rf.next_token, record rf { next_token = rf.next_token + 1 })

abbrev pub readers : RegisterFile → ℕ → Result (List ℕ)
readers rf reg = or_raise (get_elem? rf.reads reg) index_error

abbrev pub writer : RegisterFile → ℕ → Result (Option ℕ)
writer rf reg = or_raise (get_elem? rf.write reg) index_error

abbrev is_none : Option ℕ → Bool
is_none none = true
is_none (some _) = false

abbrev is_empty : List ℕ → Bool
is_empty [] = true
is_empty (_ ∷ _) = false

-- `write == token`, where either may be `None`.
abbrev same_token : Option ℕ → Option ℕ → Bool
same_token none none = true
same_token none (some _) = false
same_token (some _) none = false
same_token (some a) (some b) = a == b

pub can_read : RegisterFile → ℕ → Result Bool
can_read rf reg = do w ← writer rf reg; ok (is_none w)

-- The test of `can_write`, on the readers and the writer of the register.
abbrev writable : List ℕ → Option ℕ → Option ℕ → Bool
writable r none token = is_empty r
writable r (some t) token = same_token (some t) token

pub can_write : RegisterFile → ℕ → Option ℕ → Result Bool
can_write rf reg token = do w ← writer rf reg; r ← readers rf reg; ok (writable r w token)

-- `self.reads[reg].append(token)`, behind its assertion.
pub lock_read : ℕ → RegisterFile → ℕ → Result RegisterFile
unfolding can_read
lock_read token rf reg = do
  free ← can_read rf reg
  assert free
  r ← readers rf reg
  ok (record rf { reads = set rf.reads reg (r ++ (token ∷ [])) })

pub lock_write : ℕ → RegisterFile → ℕ → Result RegisterFile
unfolding can_write
lock_write token rf reg = do
  free ← can_write rf reg none
  assert free
  ok (record rf { write = set rf.write reg (some token) })

pub unlock_read : ℕ → RegisterFile → ℕ → Result RegisterFile
unlock_read token rf reg = do
  r ← readers rf reg
  assert (elem token r)
  ok (record rf { reads = set rf.reads reg (remove token r) })

pub unlock_write : ℕ → RegisterFile → ℕ → Result RegisterFile
unlock_write token rf reg = do
  w ← writer rf reg
  assert (same_token w (some token))
  ok (record rf { write = set rf.write reg none })

-- A loop over registers.
pub for_each :
    (RegisterFile → ℕ → Result RegisterFile) → RegisterFile → List ℕ → Result RegisterFile
for_each f rf [] = ok rf
for_each f rf (reg ∷ regs) = f rf reg >>= λ rf'. for_each f rf' regs

pub start : RegisterFile → List ℕ → List ℕ → Result (ℕ × RegisterFile)
unfolding for_each get_token
start rf read_regs write_regs = do
  let token = (get_token rf).0
  rf₁ ← for_each (lock_read token) (get_token rf).1 read_regs
  rf₂ ← for_each (lock_write token) rf₁ write_regs
  ok (token, rf₂)

pub finish : RegisterFile → ℕ → List ℕ → List ℕ → Result RegisterFile
unfolding for_each
finish rf token write_regs read_regs = do
  rf₁ ← for_each (unlock_read token) rf read_regs
  for_each (unlock_write token) rf₁ write_regs

-- `start_read`, `start_reads`, `start_write` and `start_writes` take one token each.
pub start_reads : RegisterFile → List ℕ → Result (ℕ × RegisterFile)
unfolding for_each get_token
start_reads rf regs = do
  let token = (get_token rf).0
  rf' ← for_each (lock_read token) (get_token rf).1 regs
  ok (token, rf')

pub start_writes : RegisterFile → List ℕ → Result (ℕ × RegisterFile)
unfolding for_each get_token
start_writes rf regs = do
  let token = (get_token rf).0
  rf' ← for_each (lock_write token) (get_token rf).1 regs
  ok (token, rf')

pub start_read : RegisterFile → ℕ → Result (ℕ × RegisterFile)
unfolding lock_read get_token
start_read rf reg = do
  let token = (get_token rf).0
  rf' ← lock_read token (get_token rf).1 reg
  ok (token, rf')

pub start_write : RegisterFile → ℕ → Result (ℕ × RegisterFile)
unfolding lock_write get_token
start_write rf reg = do
  let token = (get_token rf).0
  rf' ← lock_write token (get_token rf).1 reg
  ok (token, rf')

pub finish_read : RegisterFile → ℕ → ℕ → Result RegisterFile
finish_read rf reg token = unlock_read token rf reg

pub finish_reads : RegisterFile → List ℕ → ℕ → Result RegisterFile
finish_reads rf regs token = for_each (unlock_read token) rf regs

pub finish_write : RegisterFile → ℕ → ℕ → Result RegisterFile
finish_write rf reg token = unlock_write token rf reg

pub finish_writes : RegisterFile → List ℕ → ℕ → Result RegisterFile
finish_writes rf regs token = for_each (unlock_write token) rf regs
