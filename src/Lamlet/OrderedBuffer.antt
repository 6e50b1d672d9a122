-- ===== src/Lamlet/OrderedBuffer.antt =====
-- The circular buffer of ordered indexed loads and stores: python/zamlet/lamlet/ordered_buffer.py.
-- Its capacity is positive: the source divides by it for every slot.
pub mod Slots
pub mod Invariant
pub mod Window
pub mod Refine
pub mod Faults
mod Tests
use zamlet.Common.{
  ℕ, zero, suc, ◌+◌, ◌-◌, ◌%◌, ltb, leb, ◌==◌, if◌then◌else◌, Bool, true, false, ◌&&◌, not, Option,
  none, some, List, [], ◌∷◌, length, get_or, set, replicate, Result, ok, err, assertion, assert,
  ◌>>=◌, ◌>>◌,
}
use zamlet.Network.Sync.{VectorFaultInfo}

pub data ElementState : Type 0 where
  dispatched ready in_flight complete : ElementState

-- An address is that of a bit, and data is a list of bytes.
pub record ElementEntry : Type 0 where
  pub state : ElementState
  pub instr_ident : ℕ
  pub addr : Option ℕ
  pub entry_data : Option (List ℕ)
  pub tag : Option ℕ

pub record OrderedBuffer : Type 0 where
  pub buffer_id : ℕ
  pub n_elements : ℕ
  pub is_load : Bool
  pub capacity : ℕ
  pub data_ew : ℕ
  pub next_to_dispatch : ℕ
  pub next_to_process : ℕ
  pub base_index : ℕ
  pub fault_info : Option VectorFaultInfo
  pub elements : List (Option ElementEntry)

unfoldable pub new_buffer : ℕ → ℕ → Bool → ℕ → ℕ → ℕ → OrderedBuffer
new_buffer buffer_id n_elements is_load capacity data_ew start_index = record {
  buffer_id = buffer_id;
  n_elements = n_elements;
  is_load = is_load;
  capacity = capacity;
  data_ew = data_ew;
  next_to_dispatch = start_index;
  next_to_process = start_index;
  base_index = start_index;
  fault_info = none;
  elements = replicate capacity none;
}

abbrev pub fault_index : Option VectorFaultInfo → Option ℕ
fault_index none = none
fault_index (some fault) = some (fault.element_index)

abbrev pub faulted_element : OrderedBuffer → Option ℕ
faulted_element b = fault_index (b.fault_info)

abbrev pub earlier_fault : VectorFaultInfo → Option VectorFaultInfo → VectorFaultInfo
earlier_fault new none = new
earlier_fault new (some old) = if ltb (new.element_index) (old.element_index) then new else old

unfoldable pub record_fault : OrderedBuffer → VectorFaultInfo → OrderedBuffer
record_fault b fault = record b { fault_info = some (earlier_fault fault (b.fault_info)) }

-- `elements[_slot(i)]`
abbrev pub entry_in : ℕ → List (Option ElementEntry) → ℕ → Option ElementEntry
entry_in capacity elements i = get_or elements (i % capacity) none

abbrev pub get_entry : OrderedBuffer → ℕ → Option ElementEntry
get_entry b i = entry_in (b.capacity) (b.elements) i

abbrev pub can_dispatch : OrderedBuffer → Bool
can_dispatch b =
    not (leb (b.n_elements) (b.next_to_dispatch))
    && ltb (b.next_to_dispatch - b.base_index) (b.capacity)

abbrev pub all_complete : OrderedBuffer → Bool
all_complete b = leb (b.n_elements) (b.base_index)

abbrev pub is_free : Option ElementEntry → Bool
is_free none = true
is_free (some _) = false

abbrev pub fresh_entry : ℕ → ElementEntry
fresh_entry instr_ident = record {
  state = dispatched;
  instr_ident = instr_ident;
  addr = none;
  entry_data = none;
  tag = none;
}

unfoldable pub add_dispatched : OrderedBuffer → ℕ → Result (ℕ × OrderedBuffer)
add_dispatched b instr_ident =
    assert (is_free (get_entry b (b.next_to_dispatch)))
    >> ok (
      b.next_to_dispatch,
      record b {
        elements =
            set (b.elements) (b.next_to_dispatch % b.capacity) (some (fresh_entry instr_ident));
        next_to_dispatch = b.next_to_dispatch + 1;
      },
    )

abbrev pub state_complete : ElementState → Bool
state_complete dispatched = false
state_complete ready = false
state_complete in_flight = false
state_complete complete = true

abbrev pub entry_complete : Option ElementEntry → Bool
entry_complete none = false
entry_complete (some entry) = state_complete (entry.state)

-- The first loop of `complete_element`, from `i`, with `fuel` rounds.
unfoldable pub pass_completed : ℕ → List (Option ElementEntry) → ℕ → ℕ → ℕ → ℕ
pass_completed capacity elements dispatched_to zero i = i
pass_completed capacity elements dispatched_to (suc fuel) i =
    let rest = pass_completed capacity elements dispatched_to fuel (suc i) in
    if ltb i dispatched_to && entry_complete (entry_in capacity elements i) then rest else i

-- The second loop, from `i`.
unfoldable pub free_completed :
    ℕ → ℕ → ℕ → List (Option ElementEntry) → ℕ → List (Option ElementEntry) × ℕ
free_completed capacity n_elements zero elements i = (elements, i)
free_completed capacity n_elements (suc fuel) elements i =
    let rest = free_completed capacity n_elements fuel (set elements (i % capacity) none) (suc i) in
    if ltb i n_elements && entry_complete (entry_in capacity elements i)
    then rest
    else (elements, i)

abbrev pub completed_entry : ElementEntry → ElementEntry
completed_entry entry = record entry { state = complete; addr = none; entry_data = none }

abbrev pub clean_up : OrderedBuffer → List (Option ElementEntry) → OrderedBuffer
clean_up b elements =
    let freed =
      free_completed (b.capacity) (b.n_elements) (b.n_elements - b.base_index) elements
        (b.base_index) in
    record b {
      elements = freed.0;
      base_index = freed.1;
      next_to_process =
          pass_completed (b.capacity) elements (b.next_to_dispatch)
            (b.next_to_dispatch - b.next_to_process) (b.next_to_process);
    }

abbrev pub complete_entry : OrderedBuffer → ℕ → Option ElementEntry → Result OrderedBuffer
complete_entry b i none = err assertion
complete_entry b i (some entry) =
    ok (clean_up b (set (b.elements) (i % b.capacity) (some (completed_entry entry))))

unfoldable pub complete_element : OrderedBuffer → ℕ → Result OrderedBuffer
complete_element b i = complete_entry b i (get_entry b i)
