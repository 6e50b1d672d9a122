-- ===== src/Kamlet/RegisterSlot.antt =====
-- One scalar register: `RegisterFileSlot` of python/zamlet/register_file_slot.py. A future is a
-- number; the event loop resolves it, and runs what `apply_future` does then.
mod Tests
pub mod Latest
use zamlet.Common.{
  ℕ, ◌≡◌, ◌≢◌, refl, sym, ap, ◌∙◌, arith, ◌==◌, ==→eq, if◌then◌else◌, Bool, Bool-cases, inl, inr,
  true, false, ◌&&◌, ◌||◌, not, Option, none, some, List, [], ◌∷◌, length, Result, ok, err, assert,
  assert-then, ok_unique, >>=-eq-ok, ◌>>=◌, ◌>>◌,
}

pub record RegisterSlot : Type 0 where
  pub value : List ℕ
  pub next_value : List ℕ
  pub has_next_value : Bool
  pub future : Option ℕ
  pub next_future : Option ℕ
  pub has_next_future : Bool
  pub next_span_id : Option ℕ
  pub pending_future_span_id : Option ℕ

abbrev pub is_some : Option ℕ → Bool
is_some none = false
is_some (some _) = true

abbrev pub is_future : Option ℕ → ℕ → Bool
is_future none f = false
is_future (some g) f = g == f

unfoldable pub new_slot : RegisterSlot
new_slot = record {
  value = 0 ∷ 0 ∷ 0 ∷ 0 ∷ 0 ∷ 0 ∷ 0 ∷ 0 ∷ [];
  next_value = [];
  has_next_value = false;
  future = none;
  next_future = none;
  has_next_future = false;
  next_span_id = none;
  pending_future_span_id = none;
}

abbrev pub updating : RegisterSlot → Bool
updating s = is_some s.future || (s.has_next_future && is_some s.next_future || s.has_next_value)

abbrev pub can_write : RegisterSlot → Bool
can_write s = not s.has_next_future && not s.has_next_value

unfoldable pub get_value : RegisterSlot → Result (List ℕ)
get_value s = assert (not (updating s)) >> ok s.value

unfoldable pub set_value : RegisterSlot → List ℕ → ℕ → Result RegisterSlot
set_value s value span_id =
    assert (not s.has_next_value)
    >> (assert (not s.has_next_future)
        >> (assert (not (is_some s.future))
            >> (assert (length value == 8)
                >> ok (record s {
                  has_next_value = true;
                  next_value = value;
                  next_span_id = some span_id;
                }))))

unfoldable pub set_future : RegisterSlot → ℕ → ℕ → Result RegisterSlot
set_future s future span_id =
    assert (not s.has_next_future)
    >> ok (record s {
      has_next_future = true;
      next_future = some future;
      pending_future_span_id = some span_id;
    })

-- `apply_future` once the future has its value; a future that was overwritten is not applied.
unfoldable pub apply_future : ℕ → RegisterSlot → ℕ → List ℕ → Result RegisterSlot
apply_future word_bytes s future value =
    if is_future s.future future
    then assert (not s.has_next_value)
      >> (assert (length value == word_bytes)
          >> ok (record s {
            has_next_value = true;
            has_next_future = true;
            next_future = (if s.has_next_future then s.next_future else none);
            next_value = value;
            next_span_id = s.pending_future_span_id;
          }))
    else ok s

unfoldable pub update : RegisterSlot → RegisterSlot
update s = record s {
  value = (if s.has_next_value then s.next_value else s.value);
  next_span_id = (if s.has_next_value then none else s.next_span_id);
  future = (if s.has_next_future then s.next_future else s.future);
  has_next_value = false;
  has_next_future = false;
}

-- What was written last: a value, or a future that is not resolved.
pub data Written : Type 0 where
  bytes : List ℕ → Written
  promised : ℕ → Written

-- What happens to a register. A future that is staged for the next update has no task yet, so
-- that only others are applied.
pub data Happens (word_bytes : ℕ) (s : RegisterSlot) (w : Written)
    : RegisterSlot → Written → Type 0 where
  writes :
      (value : List ℕ) (span_id : ℕ) (t : RegisterSlot)
      → set_value s value span_id ≡ ok t
      → Happens word_bytes s w t (bytes value)
  promises :
      (future span_id : ℕ) (t : RegisterSlot)
      → set_future s future span_id ≡ ok t
      → Happens word_bytes s w t (promised future)
  resolves_last :
      (future : ℕ) (value : List ℕ) (t : RegisterSlot)
      → s.has_next_future && is_future s.next_future future ≡ false
      → w ≡ promised future
      → apply_future word_bytes s future value ≡ ok t
      → Happens word_bytes s w t (bytes value)
  resolves_other :
      (future : ℕ) (value : List ℕ) (t : RegisterSlot)
      → s.has_next_future && is_future s.next_future future ≡ false
      → w ≢ promised future
      → apply_future word_bytes s future value ≡ ok t
      → Happens word_bytes s w t w
  clock_edge : Happens word_bytes s w (update s) w

pub data Reach (word_bytes : ℕ) : RegisterSlot → Written → Type 0 where
  fresh : Reach word_bytes new_slot (bytes (0 ∷ 0 ∷ 0 ∷ 0 ∷ 0 ∷ 0 ∷ 0 ∷ 0 ∷ []))
  then_happens :
      (s t : RegisterSlot) (w x : Written)
      → Reach word_bytes s w
      → Happens word_bytes s w t x
      → Reach word_bytes t x
