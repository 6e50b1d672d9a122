-- ===== src/Kamlet/RegisterFile/Tests.antt =====
-- The locks of the register file of python/zamlet/register_file_slot.py on a concrete file.
use zamlet.Common.{◌≡◌, refl, [], ◌∷◌, none, some, get_elem?, ok, err, assertion}
use zamlet.Kamlet.RegisterFile.{
  RegisterFile, init, start, finish, lock_read, lock_write, unlock_write, unlock_read, for_each,
  can_read, can_write, get_token,
}
use zamlet.Kamlet.RegisterFile.Exclusion.{
  IsExclusive, init-IsExclusive, start-IsExclusive, finish-IsExclusive,
}
use zamlet.Kamlet.RegisterFile.Locks.{lock_write_lem, start-holds}

-- Registers 0 and 1 are read and register 2 is written under token 0.
abbrev started : RegisterFile
started = record {
  reads = (0 ∷ []) ∷ (0 ∷ []) ∷ [] ∷ [];
  write = none ∷ none ∷ some 0 ∷ [];
  next_token = 1;
}

started_lem : start (init 3) (0 ∷ 1 ∷ []) (2 ∷ []) ≡ ok (0, started)
unfolding start init for_each lock_read lock_write can_read can_write get_token
started_lem = refl

finished_lem : finish started 0 (2 ∷ []) (0 ∷ 1 ∷ []) ≡ ok (record (init 3) { next_token = 1 })
unfolding finish init for_each unlock_read unlock_write
finished_lem = refl

write_zero : lock_write 7 (init 3) 0 ≡ ok (record (init 3) { write = some 7 ∷ none ∷ none ∷ [] })
unfolding init lock_write can_write
write_zero = refl

start-IsExclusive_example : IsExclusive started
start-IsExclusive_example =
    start-IsExclusive (init 3) (0 ∷ 1 ∷ []) (2 ∷ []) 0 started (init-IsExclusive 3) started_lem

started-IsExclusive : IsExclusive started
started-IsExclusive = (tt, (tt, (refl, tt)))

finish-IsExclusive_example : IsExclusive (record (init 3) { next_token = 1 })
finish-IsExclusive_example =
    finish-IsExclusive started 0 (2 ∷ []) (0 ∷ 1 ∷ []) (record (init 3) { next_token = 1 })
      started-IsExclusive finished_lem

start-holds_example : get_elem? (started.write) 2 ≡ some (some (init 3).next_token)
start-holds_example = start-holds (init 3) (0 ∷ 1 ∷ []) (2 ∷ []) 0 started 2 started_lem refl

lock_write_lem_example :
    let locked = record (init 3) { write = some 7 ∷ none ∷ none ∷ [] } in
    (lock_read 8 locked 0 ≡ err assertion)
    × (lock_write 8 locked 0 ≡ err assertion)
    × (unlock_write 7 locked 0 ≡ ok (init 3))
lock_write_lem_example = lock_write_lem 7 8 (init 3) 0 _ write_zero
