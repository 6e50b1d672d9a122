-- ===== src/Kamlet/RenameTable/Tests.antt =====
-- The rename table of python/zamlet/kamlet/rename_table.py on concrete histories.
use zamlet.Common.{
  ℕ, ◌<◌, ◌≡◌, refl, arith, false, if◌then◌else◌, ◌==◌, [], ◌∷◌, ok, elem, ◌++◌, range,
}
use zamlet.Params.{default_params}
use zamlet.Kamlet.RenameTable.{
  RenameTable, init, lookup_read, allocate_write, free_register, release_pending,
}
use zamlet.Kamlet.RenameTable.Invariant.{
  IsPartition, assigned, unmapped, allocate_write_lem, allocate_write-IsPartition,
  free_register_lem, release_pending_lem,
}
use zamlet.Kamlet.RenameTable.Runs.{
  allocate, free, release, step, run, run-init-IsPartition, lookup_read-injective,
  lookup_read-allocate_write, lookup_read_not_free, fresh, fresh-IsPartition,
}

abbrev initial : RenameTable
initial = fresh 48

initial-IsPartition : IsPartition initial
initial-IsPartition = fresh-IsPartition 48 (omega arith)

init_default : init default_params ≡ ok initial
unfolding init
init_default = refl

-- Name 3 is written, and its old register waits.
abbrev written : RenameTable
written = assigned initial 3 32 (range 33 15)

write_three : allocate_write initial 3 ≡ ok (written, 32)
unfolding allocate_write
write_three = refl

three_calls :
    run initial (allocate 3 ∷ free 4 ∷ release 3 ∷ [])
    ≡ ok (record (unmapped written 4) {
      pending_free = 4 ∷ [];
      free_queue = range 33 15 ++ (3 ∷ []);
    })
unfolding run step allocate_write free_register release_pending
three_calls = refl

read_three : lookup_read written 3 ≡ ok 32
unfolding lookup_read
read_three = refl

run-init-IsPartition_example :
    IsPartition
      (record (unmapped written 4) { pending_free = 4 ∷ []; free_queue = range 33 15 ++ (3 ∷ []) })
run-init-IsPartition_example =
    run-init-IsPartition default_params (allocate 3 ∷ free 4 ∷ release 3 ∷ []) initial _
      init_default three_calls

written-IsPartition : IsPartition written
written-IsPartition =
    allocate_write-IsPartition initial 3 32 written initial-IsPartition write_three

lookup_read-allocate_write_example :
    lookup_read written 5 ≡ (if 5 == 3 then ok 32 else lookup_read initial 5)
lookup_read-allocate_write_example =
    lookup_read-allocate_write initial 3 5 32 written initial-IsPartition write_three

lookup_read_not_free_example :
    (32 < 48) × (elem 32 (range 33 15) ≡ false) × (elem 32 (3 ∷ []) ≡ false)
lookup_read_not_free_example = lookup_read_not_free written 3 32 written-IsPartition read_three

lookup_read-injective_example : ◌≡◌ {A = ℕ} 3 3
lookup_read-injective_example =
    lookup_read-injective written 3 3 32 written-IsPartition read_three read_three

allocate_write_lem_example : allocate_write initial 3 ≡ ok (written, 32)
allocate_write_lem_example =
    allocate_write_lem initial 3 32 (range 33 15) initial-IsPartition (omega arith) refl

free_register_lem_example : free_register initial 7 ≡ ok (unmapped initial 7)
free_register_lem_example = free_register_lem initial 7 initial-IsPartition (omega arith)

release_pending_lem_example :
    release_pending written 3
    ≡ ok (record written { pending_free = []; free_queue = range 33 15 ++ (3 ∷ []) })
release_pending_lem_example = release_pending_lem written 3 written-IsPartition refl
