-- ===== src/Utils/Clocked.antt =====
-- The cycles of `Queue` of python/zamlet/utils.py.
use zamlet.Common.{
  ℕ, suc, ◌<◌, ◌≡◌, refl, arith, lt→ltb, ◌↔◌, true, false, none, some, List, [], ◌∷◌, ◌++◌, length,
  Result, ok, ◌>>=◌,
}
use zamlet.Utils.{Queue, popleft, append, can_append, update}

module _ {ℓ} {A : Type ℓ} where
  -- A queue between cycles.
  abbrev pub settled : List A → ℕ → Queue A
  settled xs n = record { queue = xs; popped = false; to_append = none; capacity = n }

  abbrev pub append_then_pop : A → Queue A → Result (A × Queue A)
  append_then_pop a q = do
    q₁ ← append a q
    taken ← popleft q₁
    q₂ ← update taken.1
    ok (taken.0, q₂)

  abbrev pub pop_then_append : A → Queue A → Result (A × Queue A)
  pop_then_append a q = do
    taken ← popleft q
    q₁ ← append a taken.1
    q₂ ← update q₁
    ok (taken.0, q₂)

  -- `append` succeeds exactly where `can_append` says so.
  pub append-iff-can_append :
      (q : Queue A) (a : A) → ((q' : Queue A) × (append a q ≡ ok q')) ↔ (can_append q ≡ true)
  unfolding append can_append
  append-iff-can_append q a =
      (λ (q', e). ground arith, λ h. (record q { to_append = some a }, ground arith))

  -- An append and a pop in one cycle, in either order, take the oldest value and put the new one
  -- last, where the queue has a value and has room at the start of the cycle.
  pub append_and_pop :
      (x a : A) (xs : List A) (n : ℕ)
      → suc (length xs) < n
      → (append_then_pop a (settled (x ∷ xs) n) ≡ ok (x, settled (xs ++ (a ∷ [])) n))
        × (pop_then_append a (settled (x ∷ xs) n) ≡ ok (x, settled (xs ++ (a ∷ [])) n))
  unfolding append popleft update
  append_and_pop x a xs n h = rw (lt→ltb (suc (length xs)) n h) (refl, refl)
