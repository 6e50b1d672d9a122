-- ===== src/Lamlet/OrderedBuffer/Window.antt =====
-- The window of the buffer: the entries from the oldest one that is kept to the last dispatched.
use zamlet.Common.{
  ℕ, zero, suc, ◌+◌, ◌%◌, ◌≤◌, ◌<◌, ◌≡◌, ◌≢◌, refl, sym, subst, ap, ap₂, ◌∙◌, arith, ltb, lt→ltb,
  ◌==◌, ==→eq, if◌then◌else◌, Bool, Bool-cases, inl, inr, true, false, ◌&&◌, not, Option, none,
  List, [], ◌∷◌, ◌++◌, length, length-set, get_or, set,
}
use native.Mathlib.Nat.{add-mod_right}
use zamlet.Lamlet.OrderedBuffer.{
  ElementEntry, entry_in, is_free, entry_complete, free_completed, pass_completed,
}
use zamlet.Lamlet.OrderedBuffer.Slots.{entry_in-set_self, entry_in-set_ne}

abbrev pub window_from : ℕ → List (Option ElementEntry) → ℕ → ℕ → List (Option ElementEntry)
window_from c elements zero i = []
window_from c elements (suc k) i = entry_in c elements i ∷ window_from c elements k (suc i)

-- An ordered queue of entries gives up its oldest ones as far as they are complete.
abbrev pub drop_complete : List (Option ElementEntry) → List (Option ElementEntry)
drop_complete [] = []
drop_complete (e ∷ es) = let rest = drop_complete es in if entry_complete e then rest else e ∷ es

abbrev pub all_filled : List (Option ElementEntry) → Bool
all_filled [] = true
all_filled (e ∷ es) = not (is_free e) && all_filled es

module _ (c : ℕ) (elements : List (Option ElementEntry)) where
  pub length-window_from : (k i : ℕ) → length (window_from c elements k i) ≡ k
  length-window_from zero i = refl
  length-window_from (suc k) i = ap suc (length-window_from k (suc i))

  pub window_from-set_outside :
      (k i m : ℕ) (v : Option ElementEntry)
      → m < i + c
      → k ≤ c
      → ((j : ℕ) → i ≤ j → j < i + k → (m ≢ j) × (j < m + c))
      → window_from c (set elements (m % c) v) k i ≡ window_from c elements k i
  window_from-set_outside zero i m v near fits outside = refl
  window_from-set_outside (suc k) i m v near fits outside =
      let (apart, far) = outside i (omega arith) (omega arith) in
      rw
        (
          entry_in-set_ne c elements m i v apart near far,
          window_from-set_outside k (suc i) m v (omega arith) (omega arith)
              (λ j le lt. outside j (omega arith) (omega arith)),
        )
        refl

  window_from-snoc :
      (k i : ℕ)
      → window_from c elements (suc k) i
        ≡ window_from c elements k i ++ (entry_in c elements (i + k) ∷ [])
  window_from-snoc zero i = ap (λ (j : ℕ). entry_in c elements j ∷ []) (omega arith)
  window_from-snoc (suc k) i =
      ap (λ es. entry_in c elements i ∷ es)
        (window_from-snoc k (suc i)
          ∙ ap (λ (j : ℕ). window_from c elements k (suc i) ++ (entry_in c elements j ∷ []))
              (omega arith))

-- The write behind the window makes it longer.
pub window_from-append :
    (c : ℕ) (elements : List (Option ElementEntry)) (k i m : ℕ) (v : Option ElementEntry)
    → length elements ≡ c
    → k < c
    → m ≡ i + k
    → window_from c (set elements (m % c) v) (suc k) i ≡ window_from c elements k i ++ (v ∷ [])
window_from-append c elements k i m v size room at =
    window_from-snoc c (set elements (m % c) v) k i
    ∙ ap₂ (λ es e. es ++ (e ∷ []))
        (window_from-set_outside c elements k i m v (omega (arith, at)) (omega arith)
          (λ j le lt. ((λ e. absurd (omega (arith, at, e))), omega (arith, at))))
        (ap (λ (t : ℕ). entry_in c (set elements (m % c) v) t) (sym at)
          ∙ entry_in-set_self c elements m v (omega arith) size)

-- The write in the window.
pub window_from-set :
    (c : ℕ) (elements : List (Option ElementEntry)) (k i j m : ℕ) (v : Option ElementEntry)
    → length elements ≡ c
    → k ≤ c
    → j < k
    → m ≡ i + j
    → window_from c (set elements (m % c) v) k i ≡ set (window_from c elements k i) j v
window_from-set c elements zero i j m v size fits within at = absurd (omega arith)
window_from-set c elements (suc k) i zero m v size fits within at =
    subst
      (λ (t : ℕ).
        window_from c (set elements (t % c) v) (suc k) i ≡ v ∷ window_from c elements k (suc i))
      (sym (at ∙ add_zero i))
      (ap₂ (λ e es. e ∷ es) (entry_in-set_self c elements i v (omega arith) size)
        (window_from-set_outside c elements k (suc i) i v (omega arith) (omega arith)
          (λ j le lt. ((λ e. absurd (omega (arith, e))), omega arith))))
  where
    add_zero : (i : ℕ) → i + 0 ≡ i
    add_zero i = omega arith
window_from-set c elements (suc k) i (suc j) m v size fits within at =
    rw
      (
        entry_in-set_ne c elements m i v (λ e. absurd (omega (arith, e, at))) (omega (arith, at))
            (omega (arith, at)),
        window_from-set c elements k (suc i) j m v size (omega arith) (omega arith)
            (omega (arith, at)),
      )
      refl

entry_in-turn :
    (c : ℕ) (elements : List (Option ElementEntry)) (i : ℕ)
    → entry_in c elements (i + c) ≡ entry_in c elements i
entry_in-turn c elements i = ap (λ (s : ℕ). get_or elements s none) (add-mod_right i c)

-- What the loop that frees slots leaves of a window of `k` entries from `i`.
pub record Freed (c : ℕ) (elements : List (Option ElementEntry)) (k i : ℕ)
    (after : List (Option ElementEntry) × ℕ) : Type 0 where
  pub left : ℕ
  pub whole : after.1 + left ≡ i + k
  pub later : i ≤ after.1
  pub size : length after.0 ≡ c
  pub window : window_from c after.0 left after.1 ≡ drop_complete (window_from c elements k i)
  pub empty : (j : ℕ) → i + k ≤ j → j < after.1 + c → entry_in c after.0 j ≡ none
  pub passed : (j : ℕ) → i ≤ j → j < after.1 → entry_complete (entry_in c elements j) ≡ true

stay :
    (c : ℕ) (elements : List (Option ElementEntry)) (k i : ℕ)
    → length elements ≡ c
    → ((j : ℕ) → i + k ≤ j → j < i + c → entry_in c elements j ≡ none)
    → window_from c elements k i ≡ drop_complete (window_from c elements k i)
    → Freed c elements k i (elements, i)
stay c elements k i size empty same = record {
  left = k;
  whole = refl;
  later = omega arith;
  size = size;
  window = same;
  empty = empty;
  passed = λ j le lt. absurd (omega arith);
}

-- After the first slot of the window is freed, the slots behind the shorter window are free.
emptied_after :
    (c : ℕ) (elements : List (Option ElementEntry)) (k i : ℕ)
    → 0 < c
    → length elements ≡ c
    → ((j : ℕ) → i + suc k ≤ j → j < i + c → entry_in c elements j ≡ none)
    → (j : ℕ) → suc i + k ≤ j
    → j < suc i + c
    → entry_in c (set elements (i % c) none) j ≡ none
emptied_after c elements k i pos size empty j le lt = elim (Bool-cases (j == i + c)) [
  | inl turn ↦
      ap (λ (m : ℕ). entry_in c (set elements (i % c) none) m) (==→eq j (i + c) turn)
      ∙ entry_in-turn c (set elements (i % c) none) i
      ∙ entry_in-set_self c elements i none pos size
  | inr before ↦
      let lt' : j < i + c = ground arith in
      entry_in-set_ne c elements i j none (λ e. absurd (omega (arith, e))) (omega arith) lt'
      ∙ empty j (omega arith) lt'
]

Freed-step :
    (c : ℕ) (elements : List (Option ElementEntry)) (k i : ℕ)
    (after : List (Option ElementEntry) × ℕ)
    → suc k ≤ c
    → entry_complete (entry_in c elements i) ≡ true
    → Freed c (set elements (i % c) none) k (suc i) after
    → Freed c elements (suc k) i after
Freed-step c elements k i after fits done rest = record {
  left = rest.left;
  whole = omega (arith, rest.whole);
  later = omega (arith, rest.later);
  size = rest.size;
  window =
      rest.window
      ∙ ap drop_complete (
          window_from-set_outside c elements k (suc i) i none (omega arith) (omega arith)
            (λ j le lt. ((λ e. absurd (omega (arith, e))), omega arith)))
      ∙ rw done refl;
  empty = λ j le lt. rest.empty j (omega arith) lt;
  passed = λ j le lt. elim (Bool-cases (j == i)) [
    | inl first ↦ rw (==→eq j i first) done
    | inr other ↦
        let gt : i < j = ground arith in
        let near : j < i + c = omega (arith, rest.whole) in
        ap entry_complete (
          sym (
            entry_in-set_ne c elements i j none (λ e. absurd (omega (arith, e))) (omega arith)
              near))
        ∙ rest.passed j gt lt
  ];
}

-- The loop drops the entries that are complete from the front, whatever the rounds beyond.
pub free_completed-Freed :
    (c n fuel : ℕ) (elements : List (Option ElementEntry)) (k i : ℕ)
    → 0 < c
    → length elements ≡ c
    → k ≤ c
    → (0 < k → i + k ≤ n)
    → k ≤ fuel
    → ((j : ℕ) → i + k ≤ j → j < i + c → entry_in c elements j ≡ none)
    → Freed c elements k i (free_completed c n fuel elements i)
unfolding free_completed
free_completed-Freed c n zero elements zero i pos size fits bound enough empty =
    stay c elements 0 i size empty refl
free_completed-Freed c n zero elements (suc k) i pos size fits bound enough empty =
    absurd (omega arith)
free_completed-Freed c n (suc fuel) elements zero i pos size fits bound enough empty =
    rw (empty i (omega arith) (omega arith), and_false (ltb i n))
      (stay c elements 0 i size empty refl)
  where
    and_false : (b : Bool) → b && false ≡ false
    and_false true = refl
    and_false false = refl
free_completed-Freed c n (suc fuel) elements (suc k) i pos size fits bound enough empty =
    elim (Bool-cases (entry_complete (entry_in c elements i))) [
      | inl done ↦
          rw (lt→ltb i n (omega (arith, bound (omega arith))), done)
            (Freed-step c elements k i (free_completed c n fuel (set elements (i % c) none) (suc i))
              fits done
              (free_completed-Freed c n fuel (set elements (i % c) none) k (suc i) pos
                (length-set elements (i % c) none ∙ size) (omega arith)
                (λ _. omega (arith, bound (omega arith))) (omega arith)
                (emptied_after c elements k i pos size empty)))
      | inr waits ↦
          rw (lt→ltb i n (omega (arith, bound (omega arith))), waits)
            (stay c elements (suc k) i size empty (rw waits refl))
    ]

-- What the loop over completed entries stops at.
pub record Passed (c : ℕ) (elements : List (Option ElementEntry)) (dispatched_to i after : ℕ)
    : Type 0 where
  pub later : i ≤ after
  pub within : after ≤ dispatched_to
  pub stopped : after < dispatched_to → entry_complete (entry_in c elements after) ≡ false

pub pass_completed-Passed :
    (c : ℕ) (elements : List (Option ElementEntry)) (dispatched_to fuel i : ℕ)
    → i + fuel ≡ dispatched_to
    → Passed c elements dispatched_to i (pass_completed c elements dispatched_to fuel i)
unfolding pass_completed
pass_completed-Passed c elements dispatched_to zero i e = record {
  later = omega arith;
  within = omega (arith, e);
  stopped = λ lt. absurd (omega (arith, e));
}
pass_completed-Passed c elements dispatched_to (suc fuel) i e =
    elim (Bool-cases (entry_complete (entry_in c elements i))) [
      | inl done ↦
          let rest =
            pass_completed-Passed c elements dispatched_to fuel (suc i) (omega (arith, e)) in
          rw (lt→ltb i dispatched_to (omega (arith, e)), done)
            (record {
              later = omega (arith, rest.later);
              within = rest.within;
              stopped = rest.stopped;
            })
      | inr waits ↦
          rw (lt→ltb i dispatched_to (omega (arith, e)), waits)
            (record { later = omega arith; within = omega (arith, e); stopped = λ _. waits })
    ]
