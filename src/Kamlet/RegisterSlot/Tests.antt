-- ===== src/Kamlet/RegisterSlot/Tests.antt =====
-- A promised value arrives, and a later one replaces a future that is still pending.
use zamlet.Common.{◌↔◌, ℕ, ◌≡◌, refl, some, none, true, false, List, [], ◌∷◌, ok}
use zamlet.Kamlet.RegisterSlot.{
  RegisterSlot, new_slot, get_value, set_future, apply_future, update, bytes, promised, Reach,
  fresh, then_happens, promises, resolves_last, resolves_other, clock_edge,
}
use zamlet.Kamlet.RegisterSlot.Latest.{get_value-update}

abbrev ones : List ℕ
ones = 1 ∷ 1 ∷ 1 ∷ 1 ∷ 1 ∷ 1 ∷ 1 ∷ 1 ∷ []

abbrev twos : List ℕ
twos = 2 ∷ 2 ∷ 2 ∷ 2 ∷ 2 ∷ 2 ∷ 2 ∷ 2 ∷ []

abbrev zeros : List ℕ
zeros = 0 ∷ 0 ∷ 0 ∷ 0 ∷ 0 ∷ 0 ∷ 0 ∷ 0 ∷ []

-- The slot while a first future is awaited, and when a second one is staged over it.
abbrev awaiting : RegisterSlot
awaiting = record new_slot {
  future = some 5;
  next_future = some 5;
  pending_future_span_id = some 30;
}

abbrev restaged : RegisterSlot
restaged = record awaiting {
  has_next_future = true;
  next_future = some 6;
  pending_future_span_id = some 31;
}

-- The first future is resolved, and its value staged, before the update.
abbrev late : RegisterSlot
late = record restaged { has_next_value = true; next_value = ones; next_span_id = some 31 }

abbrev second : RegisterSlot
second = record late {
  value = ones;
  next_span_id = none;
  future = some 6;
  has_next_value = false;
  has_next_future = false;
}

abbrev arrived : RegisterSlot
arrived = record second {
  has_next_value = true;
  next_value = twos;
  has_next_future = true;
  next_future = none;
  next_span_id = some 31;
}

reach_awaiting : Reach 8 awaiting (promised 5)
unfolding new_slot set_future update
reach_awaiting = then_happens _ _ _ _ (then_happens _ _ _ _ fresh (promises 5 30 _ refl)) clock_edge

reach_late : Reach 8 late (promised 6)
unfolding new_slot set_future apply_future
reach_late =
    then_happens _ _ _ _ (then_happens _ _ _ _ reach_awaiting (promises 6 31 restaged refl))
      (resolves_other 5 ones late refl (λ h. cc) refl)

reach_arrived : Reach 8 arrived (bytes twos)
unfolding new_slot update apply_future
reach_arrived =
    then_happens second arrived _ _ (then_happens _ _ _ _ reach_late clock_edge)
      (resolves_last 6 twos arrived refl refl refl)

get_value-update_example : (get_value (update arrived) ≡ ok twos) ↔ (bytes twos ≡ bytes twos)
unfolding new_slot
get_value-update_example = get_value-update 8 arrived (bytes twos) twos reach_arrived
