-- ===== src/Lamlet/OrderedBuffer/Refine.antt =====
-- The ordered buffer against a queue without slots: the index of the oldest entry, and the
-- entries in their order.
use zamlet.Common.{
  ℕ, zero, suc, ◌+◌, ◌-◌, ◌≤◌, ◌<◌, ◌≡◌, refl, sym, ap, ap₂, ◌∙◌, arith, ltb, leb, if◌then◌else◌,
  Bool, Bool-cases, inl, inr, true, false, ◌&&◌, not, Option, none, some, List, [], ◌∷◌, ◌++◌,
  length, length-set, get_or, set, Result, ok, err, ◌>>=◌,
}
use zamlet.Lamlet.OrderedBuffer.{
  ElementEntry, OrderedBuffer, new_buffer, entry_in, get_entry, can_dispatch, fresh_entry,
  add_dispatched, completed_entry, entry_complete, complete_element,
}
use zamlet.Lamlet.OrderedBuffer.Window.{window_from, drop_complete, length-window_from}
use zamlet.Lamlet.OrderedBuffer.Invariant.{
  window, IsBuffer, new_buffer-IsBuffer, add_dispatched_lem, Completed, complete_element_lem,
}

pub record Queue : Type 0 where
  pub first : ℕ
  pub entries : List (Option ElementEntry)

abbrev pub queue_of : OrderedBuffer → Queue
queue_of b = record { first = b.base_index; entries = window b }

-- What is asked of the buffer: the dispatch of the next element, or that an element is done.
pub data Command : Type 0 where
  issue finish : ℕ → Command

abbrev pub in_window : OrderedBuffer → ℕ → Bool
in_window b i = leb (b.base_index) i && ltb i (b.next_to_dispatch)

abbrev pub buffer_of : Result (ℕ × OrderedBuffer) → Result OrderedBuffer
buffer_of (err e) = err e
buffer_of (ok (_, b)) = ok b

unfoldable pub step : OrderedBuffer → Command → Result OrderedBuffer
step b (issue instr_ident) =
    if can_dispatch b then buffer_of (add_dispatched b instr_ident) else ok b
step b (finish i) = if in_window b i then complete_element b i else ok b

unfoldable pub run : OrderedBuffer → List Command → Result OrderedBuffer
run b [] = ok b
run b (c ∷ cs) = step b c >>= λ after. run after cs

abbrev pub done_entry : Option ElementEntry → Option ElementEntry
done_entry none = none
done_entry (some entry) = some (completed_entry entry)

abbrev pub queue_finish : Queue → ℕ → Queue
queue_finish q i =
    let kept = drop_complete (set (q.entries) i (done_entry (get_or (q.entries) i none))) in
    record { first = q.first + (length (q.entries) - length kept); entries = kept }

-- The same commands to the queue, of `n_elements` in all, at most `capacity` at a time.
unfoldable pub queue_step : ℕ → ℕ → Queue → Command → Queue
queue_step n_elements capacity q (issue instr_ident) =
    if ltb (q.first + length (q.entries)) n_elements && ltb (length (q.entries)) capacity
    then record q { entries = q.entries ++ (some (fresh_entry instr_ident) ∷ []) }
    else q
queue_step n_elements capacity q (finish i) =
    if leb (q.first) i && ltb i (q.first + length (q.entries))
    then queue_finish q (i - q.first)
    else q

abbrev pub queue_run : ℕ → ℕ → Queue → List Command → Queue
queue_run n_elements capacity q [] = q
queue_run n_elements capacity q (c ∷ cs) =
    queue_run n_elements capacity (queue_step n_elements capacity q c) cs

queue-eq :
    (a b : ℕ) (es fs : List (Option ElementEntry))
    → a ≡ b
    → es ≡ fs
    → ◌≡◌ {A = Queue} (record { first = a; entries = es }) (record { first = b; entries = fs })
queue-eq a b es fs p q =
    ap₂ (λ (n : ℕ) (l : List (Option ElementEntry)). record { first = n; entries = l }) p q

window_get :
    (c : ℕ) (elements : List (Option ElementEntry)) (k i j : ℕ)
    → j < k
    → get_or (window_from c elements k i) j none ≡ entry_in c elements (i + j)
window_get c elements zero i j lt = absurd (omega arith)
window_get c elements (suc k) i zero lt = ap (λ (t : ℕ). entry_in c elements t) (omega arith)
window_get c elements (suc k) i (suc j) lt =
    window_get c elements k (suc i) j (omega arith)
    ∙ ap (λ (t : ℕ). entry_in c elements t) (omega arith)

-- One command: the buffer does what the queue does.
abbrev pub Steps : OrderedBuffer → Command → OrderedBuffer → Type 0
Steps b c after =
    (step b c ≡ ok after)
    × (queue_of after ≡ queue_step (b.n_elements) (b.capacity) (queue_of b) c)
    × (after.n_elements ≡ b.n_elements)
    × (after.capacity ≡ b.capacity)
    × IsBuffer after

length-window : (b : OrderedBuffer) → length (window b) ≡ b.next_to_dispatch - b.base_index
length-window b =
    length-window_from (b.capacity) (b.elements) (b.next_to_dispatch - b.base_index) (b.base_index)

then-branch : (t : Bool) (q x y : Queue) → t ≡ true → q ≡ x → q ≡ (if t then x else y)
then-branch true q x y h e = e
then-branch false q x y h e = cc

else-branch : (t : Bool) (q x : Queue) → t ≡ false → q ≡ (if t then x else q)
else-branch true q x h = cc
else-branch false q x h = refl

can_dispatch-window :
    (b : OrderedBuffer)
    → IsBuffer b
    → (ltb (b.base_index + length (window b)) (b.n_elements)
        && ltb (length (window b)) (b.capacity))
      ≡ can_dispatch b
can_dispatch-window b inv =
    let low : b.base_index ≤ b.next_to_dispatch = omega (arith, inv.based, inv.processed) in
    let at : b.base_index + (b.next_to_dispatch - b.base_index) ≡ b.next_to_dispatch =
      omega (arith, low) in
    ap (λ (k : ℕ). ltb (b.base_index + k) (b.n_elements) && ltb k (b.capacity)) (length-window b)
    ∙ ap (λ (k : ℕ). ltb k (b.n_elements) && ltb (b.next_to_dispatch - b.base_index) (b.capacity))
        at
    ∙ ap (λ (t : Bool). t && ltb (b.next_to_dispatch - b.base_index) (b.capacity))
        (ltb-leb (b.next_to_dispatch) (b.n_elements))
  where
    ltb-leb : (m n : ℕ) → ltb m n ≡ not (leb n m)
    ltb-leb m n = ground arith

in_window-window :
    (b : OrderedBuffer) (i : ℕ)
    → IsBuffer b
    → (leb (b.base_index) i && ltb i (b.base_index + length (window b))) ≡ in_window b i
in_window-window b i inv =
    let low : b.base_index ≤ b.next_to_dispatch = omega (arith, inv.based, inv.processed) in
    ap (λ (k : ℕ). leb (b.base_index) i && ltb i (b.base_index + k)) (length-window b)
    ∙ ap (λ (k : ℕ). leb (b.base_index) i && ltb i k) (omega (arith, low))

length-drop_complete : (es : List (Option ElementEntry)) → length (drop_complete es) ≤ length es
length-drop_complete [] = omega arith
length-drop_complete (e ∷ es) = elim (Bool-cases (entry_complete e)) [
  | inl done ↦ rw done (omega (arith, length-drop_complete es))
  | inr waits ↦ rw waits (omega arith)
]

finish-queue :
    (b after : OrderedBuffer) (i : ℕ)
    → IsBuffer b
    → b.base_index ≤ i
    → i < b.next_to_dispatch
    → Completed b i after
    → queue_of after ≡ queue_finish (queue_of b) (i - b.base_index)
finish-queue b after i inv le lt (entry, at, e, shown, next, _, _, kept) =
    let low : b.base_index ≤ b.next_to_dispatch = omega (arith, inv.based, inv.processed) in
    let j = i - b.base_index in
    let got : get_or (window b) j none ≡ some entry =
      window_get (b.capacity) (b.elements) (b.next_to_dispatch - b.base_index) (b.base_index) j
        (omega (arith, le, lt))
      ∙ ap (λ (t : ℕ). get_entry b t) (omega (arith, le))
      ∙ at in
    let entries : window after
        ≡ drop_complete (set (window b) j (done_entry (get_or (window b) j none))) =
      shown ∙ ap (λ o. drop_complete (set (window b) j o)) (sym (ap done_entry got)) in
    let shorter = length-drop_complete (set (window b) j (done_entry (get_or (window b) j none))) in
    let same_length = length-set (window b) j (done_entry (get_or (window b) j none)) in
    queue-eq (after.base_index)
      (b.base_index
        + (length (window b)
            - length (drop_complete (set (window b) j (done_entry (get_or (window b) j none))))))
      (window after) (drop_complete (set (window b) j (done_entry (get_or (window b) j none))))
      (omega (
        arith,
        shorter,
        same_length,
        ap length entries,
        length-window b,
        length-window after,
        next,
        kept.based,
        kept.processed,
        low,
      ))
      entries

step-refines :
    (b : OrderedBuffer) (c : Command) → IsBuffer b → (after : OrderedBuffer) × Steps b c after
unfolding step queue_step
step-refines b (issue instr_ident) inv = elim (Bool-cases (can_dispatch b)) [
  | inl may ↦
      let (after, (e, shown, base, n, cap, kept)) = add_dispatched_lem b instr_ident inv may in
      (
        after,
        (
          rw (may, e) refl,
          then-branch _ _ _ _ (can_dispatch-window b inv ∙ may) (queue-eq _ _ _ _ base shown),
          n,
          cap,
          kept,
        ),
      )
  | inr full ↦
      (b, (rw full refl, else-branch _ _ _ (can_dispatch-window b inv ∙ full), refl, refl, inv))
]
step-refines b (finish i) inv = elim (Bool-cases (in_window b i)) [
  | inl inside ↦
      let le : b.base_index ≤ i = ground arith in
      let lt : i < b.next_to_dispatch = ground arith in
      let (after, (entry, at, e, shown, next, n, cap, kept)) = complete_element_lem b i inv le lt in
      (
        after,
        (
          rw inside e,
          then-branch _ _ _ _ (in_window-window b i inv ∙ inside)
              (finish-queue b after i inv le lt (entry, at, e, shown, next, n, cap, kept)),
          n,
          cap,
          kept,
        ),
      )
  | inr outside ↦ (
    b,
    (rw outside refl, else-branch _ _ _ (in_window-window b i inv ∙ outside), refl, refl, inv),
  )
]

run-refines :
    (b : OrderedBuffer) (cs : List Command)
    → IsBuffer b
    → (after : OrderedBuffer) × (run b cs ≡ ok after)
      × (queue_of after ≡ queue_run (b.n_elements) (b.capacity) (queue_of b) cs)
      × IsBuffer after
unfolding run
run-refines b [] inv = (b, refl, refl, inv)
run-refines b (c ∷ cs) inv =
    let (mid, (e, q, n, cap, kept)) = step-refines b c inv in
    let (after, e', q', kept') = run-refines mid cs kept in
    (
      after,
      rw e e',
      q'
          ∙ ap₂ (λ (m : ℕ) (k : ℕ). queue_run m k (queue_of mid) cs) n cap
          ∙ ap (λ (r : Queue). queue_run (b.n_elements) (b.capacity) r cs) q,
      kept',
    )

-- From a new buffer with a positive capacity, any commands to dispatch the next element, where
-- there is room, and to complete elements of the window, in any order, raise nothing; the oldest
-- index and the entries of the window are then those of a queue without slots that takes entries at
-- the end and gives up its completed front, and the buffer satisfies its invariant.
pub new_buffer-refines :
    (buffer_id n_elements : ℕ) (is_load : Bool) (capacity data_ew start : ℕ) (cs : List Command)
    → 0 < capacity
    → (after : OrderedBuffer) × (run
          (new_buffer buffer_id n_elements is_load capacity data_ew start)
          cs
        ≡ ok after)
      × (queue_of after ≡ queue_run n_elements capacity (record { first = start; entries = [] }) cs)
      × IsBuffer after
unfolding new_buffer
new_buffer-refines buffer_id n_elements is_load capacity data_ew start cs pos =
    let made = new_buffer buffer_id n_elements is_load capacity data_ew start in
    let (after, e, q, kept) =
      run-refines made cs
        (new_buffer-IsBuffer buffer_id n_elements is_load capacity data_ew start pos) in
    let nothing : start - start ≡ 0 = omega arith in
    let empty : queue_of made ≡ record { first = start; entries = [] } =
      ap
        (λ (k : ℕ). record {
          first = start;
          entries = window_from capacity (made.elements) k start;
        })
        nothing in
    (after, e, q ∙ ap (λ (r : Queue). queue_run n_elements capacity r cs) empty, kept)
