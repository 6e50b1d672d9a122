-- ===== src/Lamlet/OrderedBuffer/Tests.antt =====
-- An ordered buffer of two slots for three elements.
use zamlet.Common.{ℕ, ◌≡◌, refl, arith, true, none, some, List, [], ◌∷◌, ok}
use zamlet.Addresses.Tlb.{read_fault}
use zamlet.Network.Sync.{VectorFaultInfo}
use zamlet.Lamlet.OrderedBuffer.{
  OrderedBuffer, new_buffer, add_dispatched, complete_element, pass_completed, free_completed,
  faulted_element,
}
use zamlet.Lamlet.OrderedBuffer.Invariant.{IsBuffer}
use zamlet.Lamlet.OrderedBuffer.Refine.{
  queue_of, Command, issue, finish, step, run, queue_step, queue_run, new_buffer-refines,
}
use zamlet.Lamlet.OrderedBuffer.Faults.{record_faults, OneOf, NoneBefore, record_faults_lem}

-- The third element takes the slot of the first; the second is done before the first.
abbrev commands : List Command
commands = issue 7 ∷ issue 7 ∷ issue 7 ∷ finish 6 ∷ finish 5 ∷ issue 8 ∷ finish 7 ∷ []

abbrev buffer : OrderedBuffer
buffer = new_buffer 0 8 true 2 32 5

queue_after : (queue_run 8 2 (record { first = 5; entries = [] }) commands).first ≡ 8
unfolding queue_step
queue_after = refl

buffer_after : (after : OrderedBuffer) × (run buffer commands ≡ ok after)
unfolding run step add_dispatched complete_element pass_completed free_completed new_buffer
buffer_after = (_, refl)

base_after : (buffer_after.0).base_index ≡ 8
unfolding buffer_after
base_after = refl

new_buffer-refines_example :
    (after : OrderedBuffer) × (run buffer commands ≡ ok after)
    × (queue_of after ≡ queue_run 8 2 (record { first = 5; entries = [] }) commands)
    × IsBuffer after
new_buffer-refines_example = new_buffer-refines 0 8 true 2 32 5 commands (omega arith)

abbrev fault_at : ℕ → VectorFaultInfo
fault_at i = record { element_index = i; fault_type = read_fault; fault_addr = 64 }

no_fault : faulted_element buffer ≡ none
unfolding new_buffer
no_fault = refl

record_faults_lem_example :
    (g : VectorFaultInfo) × (faulted_element
        (record_faults buffer (fault_at 7 ∷ fault_at 5 ∷ fault_at 6 ∷ []))
      ≡ some (g.element_index))
    × OneOf g (fault_at 7 ∷ fault_at 5 ∷ fault_at 6 ∷ [])
    × NoneBefore (g.element_index) (fault_at 7 ∷ fault_at 5 ∷ fault_at 6 ∷ [])
record_faults_lem_example =
    record_faults_lem buffer (fault_at 7) (fault_at 5 ∷ fault_at 6 ∷ []) no_fault
