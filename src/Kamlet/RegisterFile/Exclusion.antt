-- ===== src/Kamlet/RegisterFile/Exclusion.antt =====
-- Readers and the writer of a register: python/zamlet/register_file_slot.py.
use zamlet.Common.{
  ℕ, zero, suc, ◌+◌, ◌≡◌, refl, sym, subst, subst₂, ok_unique, ◌∙◌, arith, true, List, [], ◌∷◌,
  ◌++◌, Option, none, some, get_elem?, set, replicate, elem, remove, Result, ok, ap, ◌>>=◌,
  >>=-eq-ok,
}
use zamlet.Kamlet.RegisterFile.{
  RegisterFile, init, for_each, lock_read, lock_write, unlock_read, unlock_write, start, finish,
}

-- A register that is written has no reader.
abbrev pub Apart : List ℕ → Option ℕ → Type 0
Apart r none = Unit {0}
Apart r (some t) = r ≡ []

abbrev pub AllApart : List (List ℕ) → List (Option ℕ) → Type 0
AllApart [] [] = Unit {0}
AllApart [] (w ∷ ws) = ⊥
AllApart (r ∷ rs) [] = ⊥
AllApart (r ∷ rs) (w ∷ ws) = Apart r w × AllApart rs ws

abbrev pub IsExclusive : RegisterFile → Type 0
IsExclusive rf = AllApart rf.reads rf.write

replicate-AllApart : (n : ℕ) → AllApart (replicate n []) (replicate n none)
replicate-AllApart zero = tt
replicate-AllApart (suc n) = (tt, replicate-AllApart n)

set_reads-AllApart :
    (rs : List (List ℕ)) (ws : List (Option ℕ)) (i : ℕ) (r : List ℕ)
    → AllApart rs ws
    → ((w : Option ℕ) → get_elem? ws i ≡ some w → Apart r w)
    → AllApart (set rs i r) ws
set_reads-AllApart [] ws i r h k = h
set_reads-AllApart (x ∷ rs) [] i r h k = absurd h
set_reads-AllApart (x ∷ rs) (w ∷ ws) zero r h k = (k w refl, h.1)
set_reads-AllApart (x ∷ rs) (w ∷ ws) (suc i) r h k = (h.0, set_reads-AllApart rs ws i r h.1 k)

set_write-AllApart :
    (rs : List (List ℕ)) (ws : List (Option ℕ)) (i : ℕ) (w : Option ℕ)
    → AllApart rs ws
    → ((r : List ℕ) → get_elem? rs i ≡ some r → Apart r w)
    → AllApart rs (set ws i w)
set_write-AllApart [] [] i w h k = h
set_write-AllApart [] (x ∷ ws) i w h k = absurd h
set_write-AllApart (x ∷ rs) [] i w h k = h
set_write-AllApart (r ∷ rs) (x ∷ ws) zero w h k = (k r refl, h.1)
set_write-AllApart (r ∷ rs) (x ∷ ws) (suc i) w h k = (h.0, set_write-AllApart rs ws i w h.1 k)

pub some_unique {ℓ} : {A : Type ℓ} {a b : A} → some a ≡ some b → a ≡ b
some_unique e = cc

get_elem?-Apart :
    (rs : List (List ℕ)) (ws : List (Option ℕ)) (i : ℕ) {r : List ℕ} {w : Option ℕ}
    → AllApart rs ws
    → get_elem? rs i ≡ some r
    → get_elem? ws i ≡ some w
    → Apart r w
get_elem?-Apart [] ws i h a b = cc
get_elem?-Apart (x ∷ rs) [] i h a b = absurd h
get_elem?-Apart (x ∷ rs) (y ∷ ws) zero h a b = subst₂ Apart (some_unique a) (some_unique b) h.0
get_elem?-Apart (x ∷ rs) (y ∷ ws) (suc i) h a b = get_elem?-Apart rs ws i h.1 a b

-- What an operation that succeeds found, and what it made.
lock_read-inv :
    (token : ℕ) (rf : RegisterFile) (reg : ℕ) (rf' : RegisterFile)
    → lock_read token rf reg ≡ ok rf'
    → (r : List ℕ) × (get_elem? rf.write reg ≡ some none)
      × (get_elem? rf.reads reg ≡ some r)
      × (rf' ≡ record rf { reads = set rf.reads reg (r ++ (token ∷ [])) })
unfolding lock_read
lock_read-inv token rf reg rf' h = ground arith

pub lock_write-inv :
    (token : ℕ) (rf : RegisterFile) (reg : ℕ) (rf' : RegisterFile)
    → lock_write token rf reg ≡ ok rf'
    → (get_elem? rf.write reg ≡ some none)
      × (get_elem? rf.reads reg ≡ some [])
      × (rf' ≡ record rf { write = set rf.write reg (some token) })
unfolding lock_write
lock_write-inv token rf reg rf' h = ground arith

unlock_read-inv :
    (token : ℕ) (rf : RegisterFile) (reg : ℕ) (rf' : RegisterFile)
    → unlock_read token rf reg ≡ ok rf'
    → (r : List ℕ) × (get_elem? rf.reads reg ≡ some r)
      × (elem token r ≡ true)
      × (rf' ≡ record rf { reads = set rf.reads reg (remove token r) })
unfolding unlock_read
unlock_read-inv token rf reg rf' h = ground arith

unlock_write-inv :
    (token : ℕ) (rf : RegisterFile) (reg : ℕ) (rf' : RegisterFile)
    → unlock_write token rf reg ≡ ok rf'
    → (get_elem? rf.write reg ≡ some (some token))
      × (rf' ≡ record rf { write = set rf.write reg none })
unfolding unlock_write
unlock_write-inv token rf reg rf' h = ground arith

-- An operation on one register that keeps readers and writers apart.
abbrev Keeps : (RegisterFile → ℕ → Result RegisterFile) → Type 0
Keeps f =
    (rf : RegisterFile) (reg : ℕ) (rf' : RegisterFile)
    → IsExclusive rf
    → f rf reg ≡ ok rf'
    → IsExclusive rf'

lock_read-Keeps : (token : ℕ) → Keeps (lock_read token)
lock_read-Keeps token rf reg rf' v h =
    let (r, free, found, e) = lock_read-inv token rf reg rf' h in
    subst IsExclusive (sym e) (
      set_reads-AllApart rf.reads rf.write reg _ v
        λ w k. subst (Apart _) (some_unique (sym free ∙ k)) tt)

lock_write-Keeps : (token : ℕ) → Keeps (lock_write token)
lock_write-Keeps token rf reg rf' v h =
    let (free, found, e) = lock_write-inv token rf reg rf' h in
    subst IsExclusive (sym e)
      (set_write-AllApart rf.reads rf.write reg (some token) v λ r k. some_unique (sym k ∙ found))

remove_none : (token : ℕ) (r : List ℕ) (w : Option ℕ) → Apart r w → Apart (remove token r) w
remove_none token r none h = tt
remove_none token r (some t) h = rw h refl

unlock_read-Keeps : (token : ℕ) → Keeps (unlock_read token)
unlock_read-Keeps token rf reg rf' v h =
    let (r, found, held, e) = unlock_read-inv token rf reg rf' h in
    subst IsExclusive (sym e) (
      set_reads-AllApart rf.reads rf.write reg _ v
        λ w k. remove_none token r w (get_elem?-Apart rf.reads rf.write reg v found k))

unlock_write-Keeps : (token : ℕ) → Keeps (unlock_write token)
unlock_write-Keeps token rf reg rf' v h =
    let (held, e) = unlock_write-inv token rf reg rf' h in
    subst IsExclusive (sym e) (set_write-AllApart rf.reads rf.write reg none v λ r k. tt)

for_each-Keeps :
    (f : RegisterFile → ℕ → Result RegisterFile)
    → Keeps f
    → (regs : List ℕ) (rf rf' : RegisterFile) → IsExclusive rf
    → for_each f rf regs ≡ ok rf'
    → IsExclusive rf'
unfolding for_each
for_each-Keeps f keeps [] rf rf' v h = subst IsExclusive (ok_unique h) v
for_each-Keeps f keeps (reg ∷ regs) rf rf' v h =
    let (u, first, rest) = >>=-eq-ok (f rf reg) (λ u. for_each f u regs) h in
    for_each-Keeps f keeps regs u rf' (keeps rf reg u v first) rest

-- No register of a new file has a reader or a writer.
pub init-IsExclusive : (n : ℕ) → IsExclusive (init n)
unfolding init
init-IsExclusive n = replicate-AllApart n

-- The two loops of a `start` that succeeds.
pub start_parts :
    (rf : RegisterFile) (read_regs write_regs : List ℕ) (token : ℕ) (rf' : RegisterFile)
    → start rf read_regs write_regs ≡ ok (token, rf')
    → (u : RegisterFile) × (w : RegisterFile) × (for_each
          (lock_read rf.next_token)
          (record rf { next_token = rf.next_token + 1 })
          read_regs
        ≡ ok u)
      × (for_each (lock_write rf.next_token) u write_regs ≡ ok w)
      × (w ≡ rf')
unfolding start
start_parts rf read_regs write_regs token rf' h =
    let t = rf.next_token in
    let taken = record rf { next_token = t + 1 } in
    let locks = λ (u : RegisterFile). for_each (lock_write t) u write_regs in
    let answer : RegisterFile → Result (ℕ × RegisterFile) = λ w. ok (t, w) in
    let (u, first, rest) =
      >>=-eq-ok (for_each (lock_read t) taken read_regs) (λ u. locks u >>= answer) h in
    let (w, second, last) = >>=-eq-ok (locks u) answer rest in
    (u, w, first, second, ap (λ r. r.1) (ok_unique last))

-- A `start` that succeeds on a file in which no register has both readers and a writer leaves such
-- a file, whatever registers it is given.
pub start-IsExclusive :
    (rf : RegisterFile) (read_regs write_regs : List ℕ) (token : ℕ) (rf' : RegisterFile)
    → IsExclusive rf
    → start rf read_regs write_regs ≡ ok (token, rf')
    → IsExclusive rf'
unfolding start
start-IsExclusive rf read_regs write_regs token rf' v h =
    let (u, w, first, second, e) = start_parts rf read_regs write_regs token rf' h in
    subst IsExclusive e (
      for_each-Keeps (lock_write rf.next_token) (lock_write-Keeps rf.next_token) write_regs u w
        (for_each-Keeps (lock_read rf.next_token) (lock_read-Keeps rf.next_token) read_regs
          (record rf { next_token = rf.next_token + 1 }) u v first)
        second)

-- A `finish` that succeeds on a file in which no register has both readers and a writer leaves such
-- a file.
pub finish-IsExclusive :
    (rf : RegisterFile) (token : ℕ) (write_regs read_regs : List ℕ) (rf' : RegisterFile)
    → IsExclusive rf
    → finish rf token write_regs read_regs ≡ ok rf'
    → IsExclusive rf'
unfolding finish
finish-IsExclusive rf token write_regs read_regs rf' v h =
    let (u, first, rest) =
      >>=-eq-ok (for_each (unlock_read token) rf read_regs)
        (λ u. for_each (unlock_write token) u write_regs) h in
    for_each-Keeps (unlock_write token) (unlock_write-Keeps token) write_regs u rf'
      (for_each-Keeps (unlock_read token) (unlock_read-Keeps token) read_regs rf u v first) rest
