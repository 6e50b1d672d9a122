-- ===== src/Kamlet/RegisterSlot/Latest.antt =====
-- What a scalar register holds or is promised, whatever writes and futures came before.
use zamlet.Common.{
  ℕ, ◌≡◌, ◌≢◌, ◌↔◌, refl, sym, ap, ◌∙◌, ◌==◌, ==→eq, eq→==, Bool, Bool-cases, inl, inr, subst, true,
  false, ◌&&◌, ◌||◌, not, Option, none, some, List, length, Result, ok, assert-then, ok_unique,
  if◌then◌else◌,
}
use zamlet.Kamlet.RegisterSlot.{
  RegisterSlot, new_slot, is_some, is_future, updating, get_value, set_value, set_future,
  apply_future, update, Written, bytes, promised, Happens, writes, promises, resolves_last,
  resolves_other, clock_edge, Reach, fresh, then_happens,
}

-- The value that was written last is where the staged fields and the committed ones say.
abbrev pub Fits : Bool → Option ℕ → Bool → List ℕ → Option ℕ → List ℕ → Written → Type 0
Fits true (some f) _ _ _ _ w = w ≡ promised f
Fits true none true staged _ _ w = w ≡ bytes staged
Fits true none false _ _ _ w = ⊥
Fits false _ true staged future _ w = (future ≡ none) × (w ≡ bytes staged)
Fits false _ false _ (some f) _ w = w ≡ promised f
Fits false _ false _ none value w = w ≡ bytes value

abbrev pub HoldsLatest : RegisterSlot → Written → Type 0
HoldsLatest s w =
    Fits (s.has_next_future) (s.next_future) (s.has_next_value) (s.next_value) (s.future) (s.value)
      w

set_value-Fits :
    (hf : Bool) (nf : Option ℕ) (staged : List ℕ) (f : Option ℕ) (v : List ℕ)
    → not hf ≡ true
    → not (is_some f) ≡ true
    → Fits hf nf true staged f v (bytes staged)
set_value-Fits true nf staged f v h _ = cc
set_value-Fits false nf staged (some f) v _ h = cc
set_value-Fits false nf staged none v _ _ = (refl, refl)

-- The update moves what is staged.
update-Fits :
    (hf : Bool) (nf : Option ℕ) (hv : Bool) (staged : List ℕ) (f : Option ℕ) (v : List ℕ)
    (w : Written)
    → Fits hf nf hv staged f v w
    → Fits false nf false staged (if hf then nf else f) (if hv then staged else v) w
update-Fits true (some g) hv staged f v w h = h
update-Fits true none true staged f v w h = h
update-Fits true none false staged f v w h = elim h [ ]
update-Fits false nf true staged f v w (e, h) = rw e h
update-Fits false nf false staged (some g) v w h = h
update-Fits false nf false staged none v w h = h

promised_unique : {f g : ℕ} → promised f ≡ promised g → f ≡ g
promised_unique h = cc

-- A future that was promised last is the slot's, unless it is staged.
last_is_future :
    (hf : Bool) (nf : Option ℕ) (hv : Bool) (staged : List ℕ) (f : Option ℕ) (v : List ℕ)
    (future : ℕ)
    → hf && is_future nf future ≡ false
    → Fits hf nf hv staged f v (promised future)
    → is_future f future ≡ true
last_is_future true (some g) hv staged f v future unstaged h =
    cc (unstaged, eq→== g future (sym (promised_unique h)))
last_is_future true none true staged f v future _ h = cc
last_is_future true none false staged f v future _ h = elim h [ ]
last_is_future false nf true staged f v future _ h = cc
last_is_future false nf false staged (some g) v future _ h =
    eq→== g future (sym (promised_unique h))
last_is_future false nf false staged none v future _ h = cc

-- A future that was promised last is applied: its value is staged.
apply_future-Fits :
    (hf : Bool) (nf : Option ℕ) (hv : Bool) (old staged : List ℕ) (f : Option ℕ) (v : List ℕ)
    (future : ℕ)
    → not hv ≡ true
    → hf && is_future nf future ≡ false
    → Fits hf nf hv old f v (promised future)
    → Fits true (if hf then nf else none) true staged f v (bytes staged)
apply_future-Fits false nf hv old staged f v future _ _ _ = refl
apply_future-Fits true none true old staged f v future free _ _ = cc
apply_future-Fits true none false old staged f v future _ _ h = elim h [ ]
apply_future-Fits true (some g) hv old staged f v future _ unstaged h =
    cc (unstaged, eq→== g future (sym (promised_unique h)))

-- Another future is applied before it is replaced by the one that is staged.
apply_other-Fits :
    (hf : Bool) (nf : Option ℕ) (hv : Bool) (old staged : List ℕ) (f : Option ℕ) (v : List ℕ)
    (w : Written) (future : ℕ)
    → not hv ≡ true
    → is_future f future ≡ true
    → w ≢ promised future
    → Fits hf nf hv old f v w
    → Fits true (if hf then nf else none) true staged f v w
apply_other-Fits true (some g) hv old staged f v w future _ _ _ h = h
apply_other-Fits hf nf true old staged f v w future free _ _ _ = cc
apply_other-Fits true none false old staged f v w future _ _ _ h = elim h [ ]
apply_other-Fits false nf false old staged none v w future _ mine _ _ = cc
apply_other-Fits false nf false old staged (some g) v w future _ mine differs h =
    elim (differs (h ∙ ap promised (==→eq g future mine))) [ ]

taken :
    (b : Bool) (m n : Result RegisterSlot) {r : Result RegisterSlot}
    → b ≡ true
    → (if b then m else n) ≡ r
    → m ≡ r
taken b m n h e = sym (rw h refl) ∙ e

passed :
    (b : Bool) (m n : Result RegisterSlot) {r : Result RegisterSlot}
    → b ≡ false
    → (if b then m else n) ≡ r
    → n ≡ r
passed b m n h e = sym (rw h refl) ∙ e

-- One event: the slot holds what was written last.
step-HoldsLatest :
    (word_bytes : ℕ) (s t : RegisterSlot) (w x : Written)
    → Happens word_bytes s w t x
    → HoldsLatest s w
    → HoldsLatest t x
unfolding set_value set_future apply_future update
step-HoldsLatest n s t w x clock_edge h =
    update-Fits (s.has_next_future) (s.next_future) (s.has_next_value) (s.next_value) (s.future)
      (s.value) w h
step-HoldsLatest n s t w x (promises future span_id _ e) h =
    let (_, made) = assert-then (not (s.has_next_future)) _ e in
    subst (λ r. HoldsLatest r (promised future)) (ok_unique made) refl
step-HoldsLatest n s t w x (writes value span_id _ e) h =
    let (no_value, e1) = assert-then (not (s.has_next_value)) _ e in
    let (no_future, e2) = assert-then (not (s.has_next_future)) _ e1 in
    let (settled, e3) = assert-then (not (is_some (s.future))) _ e2 in
    let (_, made) = assert-then (length value == 8) _ e3 in
    subst (λ r. HoldsLatest r (bytes value)) (ok_unique made)
      (set_value-Fits (s.has_next_future) (s.next_future) value (s.future) (s.value) no_future
        settled)
step-HoldsLatest n s t w x (resolves_last future value _ unstaged last e) h =
    let said = subst (HoldsLatest s) last h in
    let mine =
      last_is_future (s.has_next_future) (s.next_future) (s.has_next_value) (s.next_value)
        (s.future) (s.value) future unstaged said in
    let (free, e1) =
      assert-then (not (s.has_next_value)) _ (taken (is_future (s.future) future) _ _ mine e) in
    let (_, made) = assert-then (length value == n) _ e1 in
    subst (λ r. HoldsLatest r (bytes value)) (ok_unique made)
      (apply_future-Fits (s.has_next_future) (s.next_future) (s.has_next_value) (s.next_value) value
        (s.future) (s.value) future free unstaged said)
step-HoldsLatest n s t w x (resolves_other future value _ unstaged other e) h =
    elim (Bool-cases (is_future (s.future) future)) [
      | inl mine ↦
          let (free, e1) =
            assert-then (not (s.has_next_value)) _
              (taken (is_future (s.future) future) _ _ mine e) in
          let (_, made) = assert-then (length value == n) _ e1 in
          subst (λ r. HoldsLatest r w) (ok_unique made)
            (apply_other-Fits (s.has_next_future) (s.next_future) (s.has_next_value) (s.next_value)
              value (s.future) (s.value) w future free mine other h)
      | inr replaced ↦
          subst (λ r. HoldsLatest r w)
            (ok_unique (passed (is_future (s.future) future) _ _ replaced e)) h
    ]

reach-HoldsLatest :
    (word_bytes : ℕ) (s : RegisterSlot) (w : Written) → Reach word_bytes s w → HoldsLatest s w
unfolding new_slot
reach-HoldsLatest n s w fresh = refl
reach-HoldsLatest n s w (then_happens r t v x before step) =
    step-HoldsLatest n r t v x step (reach-HoldsLatest n r v before)

-- A slot that is not updating holds what was written last.
settled-Fits :
    (hf : Bool) (nf : Option ℕ) (hv : Bool) (staged : List ℕ) (f : Option ℕ) (v : List ℕ)
    (w : Written)
    → not (is_some f || (hf && is_some nf || hv)) ≡ true
    → Fits hf nf hv staged f v w
    → w ≡ bytes v
settled-Fits true (some g) hv staged f v w h _ = absurd_option f h
  where
    absurd_option : (f : Option ℕ) → not (is_some f || true) ≡ true → w ≡ bytes v
    absurd_option none h = cc
    absurd_option (some _) h = cc
settled-Fits true none true staged none v w h _ = cc
settled-Fits true none true staged (some _) v w h _ = cc
settled-Fits true none false staged f v w _ h = elim h [ ]
settled-Fits false nf true staged none v w h _ = cc
settled-Fits false nf true staged (some _) v w h _ = cc
settled-Fits false nf false staged (some g) v w h _ = cc
settled-Fits false nf false staged none v w _ h = h

get_value-latest :
    (word_bytes : ℕ) (s : RegisterSlot) (w : Written) (value : List ℕ)
    → Reach word_bytes s w
    → get_value s ≡ ok value
    → w ≡ bytes value
unfolding get_value
get_value-latest n s w value r e =
    let (settled, read) = assert-then (not (updating s)) _ e in
    settled-Fits (s.has_next_future) (s.next_future) (s.has_next_value) (s.next_value) (s.future)
      (s.value) w settled (reach-HoldsLatest n s w r)
    ∙ ap bytes (ok_unique read)

-- Nothing is staged after an update: with the last written value known, no future is awaited.
updated_settled :
    (nf : Option ℕ) (staged : List ℕ) (f : Option ℕ) (v value : List ℕ)
    → Fits false nf false staged f v (bytes value)
    → (is_some f || (false && is_some nf || false) ≡ false) × (v ≡ value)
updated_settled nf staged (some g) v value h = cc
updated_settled nf staged none v value h = (refl, cc)

-- After any writes, promises of a future, resolutions of futures, the one that is staged for the
-- next update excepted, and updates of a new register, in any order, an update lets `get_value`
-- succeed exactly where the last write, or the resolved future that was promised last, is known,
-- and the value is that one.
pub get_value-update :
    (word_bytes : ℕ) (s : RegisterSlot) (w : Written) (value : List ℕ)
    → Reach word_bytes s w
    → (get_value (update s) ≡ ok value) ↔ (w ≡ bytes value)
unfolding update get_value
get_value-update n s w value r = (
  get_value-latest n (update s) w value reached,
  λ known.
      let (settled, same) =
        updated (subst (HoldsLatest (update s)) known (reach-HoldsLatest n (update s) w reached)) in
      read (update s) settled same,
)
  where
    reached : Reach n (update s) w
    reached = then_happens s (update s) w w r clock_edge

    updated :
        HoldsLatest (update s) (bytes value)
        → (updating (update s) ≡ false) × ((update s).value ≡ value)
    updated h =
        updated_settled (s.next_future) (s.next_value)
          (if s.has_next_future then s.next_future else s.future)
          (if s.has_next_value then s.next_value else s.value) value h

    read : (t : RegisterSlot) → updating t ≡ false → t.value ≡ value → get_value t ≡ ok value
    read t settled same = rw settled (ap ok same)
