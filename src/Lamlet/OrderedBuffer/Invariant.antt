-- ===== src/Lamlet/OrderedBuffer/Invariant.antt =====
-- The ordered buffer is a queue of the entries in its window: kept by every operation.
use zamlet.Common.{
  ℕ, zero, suc, ◌+◌, ◌-◌, ◌%◌, ◌≤◌, ◌<◌, ◌≡◌, refl, ap, ◌∙◌, arith, ltb, leb, ltb→lt, leb→le, Bool,
  Bool-cases, inl, inr, true, Option, none, some, List, [], ◌∷◌, ◌++◌, length, length-set,
  length-replicate, get_or, set, replicate, ok,
}
use zamlet.Lamlet.OrderedBuffer.{
  ElementEntry, OrderedBuffer, new_buffer, entry_in, get_entry, can_dispatch, fresh_entry,
  add_dispatched, entry_complete, completed_entry, clean_up, complete_element,
}
use zamlet.Lamlet.OrderedBuffer.Slots.{entry_in-set_ne}
use zamlet.Lamlet.OrderedBuffer.Window.{
  window_from, drop_complete, all_filled, window_from-append, window_from-set, free_completed-Freed,
  pass_completed-Passed,
}

abbrev pub window : OrderedBuffer → List (Option ElementEntry)
window b = window_from (b.capacity) (b.elements) (b.next_to_dispatch - b.base_index) (b.base_index)

pub record IsBuffer (b : OrderedBuffer) : Type 0 where
  pub pos : 0 < b.capacity
  pub size : length (b.elements) ≡ b.capacity
  pub based : b.base_index ≤ b.next_to_process
  pub processed : b.next_to_process ≤ b.next_to_dispatch
  pub fits : b.next_to_dispatch ≤ b.base_index + b.capacity
  pub bound : b.base_index < b.next_to_dispatch → b.next_to_dispatch ≤ b.n_elements
  pub filled : all_filled (window b) ≡ true
  pub empty :
      (i : ℕ) → b.next_to_dispatch ≤ i → i < b.base_index + b.capacity → get_entry b i ≡ none

get_or-replicate : (n i : ℕ) → ◌≡◌ {A = Option ElementEntry} (get_or (replicate n none) i none) none
get_or-replicate zero i = refl
get_or-replicate (suc n) zero = refl
get_or-replicate (suc n) (suc i) = get_or-replicate n i

pub new_buffer-IsBuffer :
    (buffer_id n_elements : ℕ) (is_load : Bool) (capacity data_ew start : ℕ)
    → 0 < capacity
    → IsBuffer (new_buffer buffer_id n_elements is_load capacity data_ew start)
unfolding new_buffer
new_buffer-IsBuffer buffer_id n_elements is_load capacity data_ew start pos = record {
  pos = pos;
  size = length-replicate capacity none;
  based = omega arith;
  processed = omega arith;
  fits = omega arith;
  bound = λ lt. absurd (omega arith);
  filled = let e : start - start ≡ 0 = omega arith in rw e refl;
  empty = λ i le lt. get_or-replicate capacity (i % capacity);
}

all_filled-append :
    (es : List (Option ElementEntry)) (e : ElementEntry)
    → all_filled es ≡ true
    → all_filled (es ++ (some e ∷ [])) ≡ true
all_filled-append [] e h = refl
all_filled-append (none ∷ es) e h = cc
all_filled-append (some x ∷ es) e h = all_filled-append es e h

-- What `add_dispatched` does to a buffer with room: the entry comes last.
abbrev pub Dispatched : OrderedBuffer → ℕ → OrderedBuffer → Type 0
Dispatched b instr_ident after =
    (add_dispatched b instr_ident ≡ ok (b.next_to_dispatch, after))
    × (window after ≡ window b ++ (some (fresh_entry instr_ident) ∷ []))
    × (after.base_index ≡ b.base_index)
    × (after.n_elements ≡ b.n_elements)
    × (after.capacity ≡ b.capacity)
    × IsBuffer after

pub add_dispatched_lem :
    (b : OrderedBuffer) (instr_ident : ℕ)
    → IsBuffer b
    → can_dispatch b ≡ true
    → (after : OrderedBuffer) × Dispatched b instr_ident after
unfolding add_dispatched
add_dispatched_lem b instr_ident inv may =
    let room : b.next_to_dispatch - b.base_index < b.capacity = ground arith in
    let low : b.base_index ≤ b.next_to_dispatch = omega (arith, inv.based, inv.processed) in
    let left : b.next_to_dispatch < b.n_elements = ground arith in
    let next = b.next_to_dispatch in
    let after = record b {
      elements = set (b.elements) (next % b.capacity) (some (fresh_entry instr_ident));
      next_to_dispatch = next + 1;
    } in
    let longer : next + 1 - b.base_index ≡ suc (next - b.base_index) = omega (arith, low) in
    let at : next ≡ b.base_index + (next - b.base_index) = omega (arith, low) in
    let shown : window after ≡ window b ++ (some (fresh_entry instr_ident) ∷ []) =
      ap (λ (k : ℕ). window_from (b.capacity) (after.elements) k (b.base_index)) longer
      ∙ window_from-append (b.capacity) (b.elements) (next - b.base_index) (b.base_index) next
          (some (fresh_entry instr_ident)) inv.size room at in
    (
      after,
      (
        rw (inv.empty next (omega arith) (omega (arith, low, room))) refl,
        shown,
        refl,
        refl,
        refl,
        record {
          pos = inv.pos;
          size =
              length-set (b.elements) (next % b.capacity) (some (fresh_entry instr_ident))
              ∙ inv.size;
          based = inv.based;
          processed = omega (arith, inv.processed);
          fits = omega (arith, room, low);
          bound = λ _. omega (arith, left);
          filled = rw shown (all_filled-append (window b) (fresh_entry instr_ident) inv.filled);
          empty = λ i le lt.
              entry_in-set_ne (b.capacity) (b.elements) next i (some (fresh_entry instr_ident))
                (λ e. absurd (omega (arith, e, le))) (omega (arith, le)) (omega (arith, lt, low))
              ∙ inv.empty i (omega (arith, le)) lt;
        },
      ),
    )

drop_complete-all_filled :
    (es : List (Option ElementEntry)) → all_filled es ≡ true → all_filled (drop_complete es) ≡ true
drop_complete-all_filled [] h = refl
drop_complete-all_filled (none ∷ es) h = cc
drop_complete-all_filled (some e ∷ es) h = elim (Bool-cases (entry_complete (some e))) [
  | inl done ↦ rw done (drop_complete-all_filled es h)
  | inr waits ↦ rw waits h
]

set-all_filled :
    (es : List (Option ElementEntry)) (j : ℕ) (e : ElementEntry)
    → all_filled es ≡ true
    → all_filled (set es j (some e)) ≡ true
set-all_filled [] j e h = refl
set-all_filled (none ∷ es) j e h = cc
set-all_filled (some x ∷ es) zero e h = h
set-all_filled (some x ∷ es) (suc j) e h = set-all_filled es j e h

filled-cons :
    (e : Option ElementEntry) (es : List (Option ElementEntry))
    → all_filled (e ∷ es) ≡ true
    → ((entry : ElementEntry) × (e ≡ some entry)) × (all_filled es ≡ true)
filled-cons none es h = cc
filled-cons (some entry) es h = ((entry, refl), h)

-- The entry of an element in the window.
window-entry :
    (c : ℕ) (elements : List (Option ElementEntry)) (k i j m : ℕ)
    → all_filled (window_from c elements k i) ≡ true
    → j < k
    → m ≡ i + j
    → (entry : ElementEntry) × (entry_in c elements m ≡ some entry)
window-entry c elements zero i j m h lt at = absurd (omega arith)
window-entry c elements (suc k) i zero m h lt at =
    let ((entry, e), _) =
      filled-cons (entry_in c elements i) (window_from c elements k (suc i)) h in
    (entry, ap (λ (t : ℕ). entry_in c elements t) (omega (arith, at)) ∙ e)
window-entry c elements (suc k) i (suc j) m h lt at =
    let (_, rest) = filled-cons (entry_in c elements i) (window_from c elements k (suc i)) h in
    window-entry c elements k (suc i) j m rest (omega arith) (omega (arith, at))

-- What `complete_element` does to an element of the window: it is marked, and what is complete at
-- the front of the window leaves.
abbrev pub Completed : OrderedBuffer → ℕ → OrderedBuffer → Type 0
Completed b i after =
    (entry : ElementEntry) × (get_entry b i ≡ some entry)
    × (complete_element b i ≡ ok after)
    × (window after
        ≡ drop_complete (set (window b) (i - b.base_index) (some (completed_entry entry))))
    × (after.next_to_dispatch ≡ b.next_to_dispatch)
    × (after.n_elements ≡ b.n_elements)
    × (after.capacity ≡ b.capacity)
    × IsBuffer after

clean_up-IsBuffer :
    (b : OrderedBuffer) (elements : List (Option ElementEntry))
    → IsBuffer b
    → length elements ≡ b.capacity
    → all_filled
        (window_from (b.capacity) elements (b.next_to_dispatch - b.base_index) (b.base_index))
      ≡ true
    → ((j : ℕ)
        → b.next_to_dispatch ≤ j
        → j < b.base_index + b.capacity
        → entry_in (b.capacity) elements j ≡ none)
    → (window (clean_up b elements)
        ≡ drop_complete
            (window_from (b.capacity) elements (b.next_to_dispatch - b.base_index) (b.base_index)))
      × IsBuffer (clean_up b elements)
clean_up-IsBuffer b elements inv size filled empty =
    let k = b.next_to_dispatch - b.base_index in
    let low : b.base_index ≤ b.next_to_dispatch = omega (arith, inv.based, inv.processed) in
    let after = clean_up b elements in
    let freed =
      free_completed-Freed (b.capacity) (b.n_elements) (b.n_elements - b.base_index) elements k
        (b.base_index) inv.pos size (omega (arith, inv.fits, low))
        (λ lt. omega (arith, inv.bound (omega (arith, lt)), lt, low)) (enough b inv)
        (λ j le lt. empty j (omega (arith, le, low)) lt) in
    let passed =
      pass_completed-Passed (b.capacity) elements (b.next_to_dispatch)
        (b.next_to_dispatch - b.next_to_process) (b.next_to_process)
        (omega (arith, inv.processed)) in
    let left : after.next_to_dispatch - after.base_index ≡ freed.left =
      omega (arith, freed.whole, low) in
    let shown : window after ≡ drop_complete (window_from (b.capacity) elements k (b.base_index)) =
      ap (λ (n : ℕ). window_from (b.capacity) (after.elements) n (after.base_index)) left
      ∙ freed.window in
    (
      shown,
      record {
        pos = inv.pos;
        size = freed.size;
        based = elim (Bool-cases (leb (after.base_index) (after.next_to_process))) [
          | inl le ↦ leb→le (after.base_index) (after.next_to_process) le
          | inr gt ↦
              let lt : after.next_to_process < after.base_index = ground arith in
              let done =
                freed.passed (after.next_to_process) (omega (arith, inv.based, passed.later)) lt in
              let waits = passed.stopped (omega (arith, lt, freed.whole, low)) in cc
        ];
        processed = passed.within;
        fits = omega (arith, freed.later, inv.fits);
        bound = λ lt. inv.bound (omega (arith, lt, freed.later));
        filled =
            rw shown (
              drop_complete-all_filled (window_from (b.capacity) elements k (b.base_index)) filled);
        empty = λ j le lt. freed.empty j (omega (arith, le, low)) lt;
      },
    )
  where
    enough :
        (b : OrderedBuffer)
        → IsBuffer b
        → b.next_to_dispatch - b.base_index ≤ b.n_elements - b.base_index
    enough b inv = elim (Bool-cases (ltb (b.base_index) (b.next_to_dispatch))) [
      | inl some_left ↦
          omega (arith, inv.bound (ltb→lt (b.base_index) (b.next_to_dispatch) some_left))
      | inr none_left ↦ ground arith
    ]

pub complete_element_lem :
    (b : OrderedBuffer) (i : ℕ)
    → IsBuffer b
    → b.base_index ≤ i
    → i < b.next_to_dispatch
    → (after : OrderedBuffer) × Completed b i after
unfolding complete_element
complete_element_lem b i inv le lt =
    let k = b.next_to_dispatch - b.base_index in
    let j = i - b.base_index in
    let at : i ≡ b.base_index + j = omega (arith, le) in
    let (entry, e) =
      window-entry (b.capacity) (b.elements) k (b.base_index) j i inv.filled (omega (arith, le, lt))
        at in
    let v = some (completed_entry entry) in
    let elements = set (b.elements) (i % b.capacity) v in
    let marked =
      window_from-set (b.capacity) (b.elements) k (b.base_index) j i v inv.size
        (omega (arith, inv.fits)) (omega (arith, le, lt)) at in
    let (shown, kept) =
      clean_up-IsBuffer b elements inv (length-set (b.elements) (i % b.capacity) v ∙ inv.size)
        (rw marked (set-all_filled (window b) j (completed_entry entry) inv.filled))
        (λ m m_le m_lt.
          entry_in-set_ne (b.capacity) (b.elements) i m v (λ e. absurd (omega (arith, e, lt, m_le)))
            (omega (arith, lt, m_le)) (omega (arith, m_lt, le))
          ∙ inv.empty m m_le m_lt) in
    (
      clean_up b elements,
      (entry, e, rw e refl, shown ∙ ap drop_complete marked, refl, refl, refl, kept),
    )
