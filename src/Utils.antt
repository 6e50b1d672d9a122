-- ===== src/Utils.antt =====
-- python/zamlet/utils.py: numbers as bits, words and digits, and the clocked values `Queue` and
-- `SettableBool`. Numbers are not negative.
pub mod Words
pub mod Clocked
mod Tests
use zamlet.Common.{
  ℕ, zero, suc, ◌+◌, ◌-◌, ◌*◌, ◌/◌, ◌%◌, ◌^◌, ltb, leb, ◌==◌, if◌then◌else◌, Bool, true, false,
  ◌&&◌, ◌||◌, not, Option, none, some, List, [], ◌∷◌, ◌++◌, length, Result, ok, err, index_error,
  assertion, assert, guard, zero_division, ◌>>=◌, ◌>>◌, map,
}

-- The loop of `uint_to_bits`: the bits, and what is left of the value.
pub bits_loop : ℕ → ℕ → List ℕ × ℕ
bits_loop zero value = ([], value)
bits_loop (suc width) value =
    let (bits, rest) = bits_loop width (value / 2) in (value % 2 ∷ bits, rest)

pub uint_to_bits : ℕ → ℕ → Result (List ℕ)
uint_to_bits value width = assert ((bits_loop width value).1 == 0) >> ok (bits_loop width value).0

pub bits_to_uint : List ℕ → ℕ
bits_to_uint [] = 0
bits_to_uint (bit ∷ bits) = bits_to_uint bits * 2 + bit

-- `while value > 0`, on fuel; as many rounds as the value are enough.
unfoldable pub halvings : ℕ → ℕ → ℕ
halvings zero value = 0
halvings (suc fuel) value =
    let rest = halvings fuel (value / 2) in if ltb 0 value then suc rest else 0

pub clog2 : ℕ → ℕ
clog2 value = halvings (value - 1) (value - 1)

unfoldable pub log2ceil : ℕ → ℕ
log2ceil value = halvings value value

-- On fuel: each call halves the value.
unfoldable power_of_two_loop : ℕ → ℕ → Bool
power_of_two_loop zero value = false
power_of_two_loop (suc fuel) value =
    let rest = power_of_two_loop fuel (value / 2) in
    value == 2 || ltb 1 value && value % 2 == 0 && rest

unfoldable is_power_of_two : ℕ → Bool
is_power_of_two value = power_of_two_loop value value

pub list_of_uints_to_uint : List ℕ → ℕ → Result ℕ
list_of_uints_to_uint [] width = ok 0
list_of_uints_to_uint (value ∷ values) width = do
  total ← list_of_uints_to_uint values width
  assert (ltb value (2 ^ width))
  ok (total * 2 ^ width + value)

-- The loop of `uint_to_list_of_uints`: the words, and what is left of the value.
unfoldable pub words_loop : ℕ → ℕ → ℕ → List ℕ × ℕ
words_loop width zero value = ([], value)
words_loop width (suc size) value =
    let (words, rest) = words_loop width size (value / 2 ^ width) in
    (value % 2 ^ width ∷ words, rest)

unfoldable pub uint_to_list_of_uints : ℕ → ℕ → ℕ → Result (List ℕ)
uint_to_list_of_uints value width size =
    assert ((words_loop width size value).1 == 0) >> ok (words_loop width size value).0

pub split_loop : List ℕ → ℕ → List ℕ × ℕ
split_loop [] value = ([], value)
split_loop (factor ∷ factors) value =
    let (pieces, reduced) = split_loop factors (value / factor) in
    (value % factor ∷ pieces, reduced)

-- A factor of zero raises, wherever it stands.
abbrev no_zero : List ℕ → Bool
no_zero [] = true
no_zero (factor ∷ factors) = ltb 0 factor && no_zero factors

pub split_by_factors : ℕ → List ℕ → Bool → Result (List ℕ)
split_by_factors value factors allow_remainder =
    guard (no_zero factors) zero_division
    >> (let (pieces, reduced) = split_loop factors value in
        if allow_remainder
        then ok (pieces ++ (reduced ∷ []))
        else (assert (reduced == 0) >> ok pieces))

-- `join_by_factors` on the values left, with the product `f` of the factors before them. The last
-- value has a factor, which bounds it, or none.
pub join_loop : ℕ → List ℕ → List ℕ → Result ℕ
join_loop f [] factors = err index_error
join_loop f (value ∷ []) [] = ok (value * f)
join_loop f (value ∷ []) (factor ∷ _) = assert (ltb value factor) >> ok (value * f)
join_loop f (value ∷ _ ∷ _) [] = err assertion
join_loop f (value ∷ next ∷ values) (factor ∷ factors) = do
  assert (ltb value factor)
  total ← join_loop (f * factor) (next ∷ values) factors
  ok (value * f + total)

pub join_by_factors : List ℕ → List ℕ → Result ℕ
join_by_factors values factors = do
  assert (length values == length factors + 1 || length values == length factors)
  join_loop 1 values factors

-- `SettableBool`
record SettableBool : Type 0 where
  value : Bool
  has_next_value : Bool
  next_value : Bool

unfoldable set_next : Bool → SettableBool → Result SettableBool
set_next v b =
    assert (not b.has_next_value) >> ok (record b { has_next_value = true; next_value = v })

unfoldable update_bool : SettableBool → SettableBool
update_bool b = record b {
  value = if b.has_next_value then b.next_value else b.value;
  has_next_value = false;
}

unfoldable peek : SettableBool → Bool
peek b = if b.has_next_value then b.next_value else b.value

-- `Queue`: at most one append and one pop take effect in a cycle, at its end. `to_append` holds the
-- flag `appended` too.
pub record Queue {ℓ} (A : Type ℓ) : Type ℓ where
  pub queue : List A
  pub popped : Bool
  pub to_append : Option A
  pub capacity : ℕ

module _ {ℓ} {A : Type ℓ} where
  abbrev pub first : List A → Result A
  first [] = err index_error
  first (x ∷ xs) = ok x

  abbrev pub is_some : Option A → Bool
  is_some none = false
  is_some (some a) = true

  abbrev pub with_appended : List A → Option A → List A
  with_appended xs none = xs
  with_appended xs (some a) = xs ++ (a ∷ [])

  abbrev pub empty_queue : ℕ → Queue A
  empty_queue n = record { queue = []; popped = false; to_append = none; capacity = n }

  abbrev pub head : Queue A → Result A
  head q = first q.queue

  pub popleft : Queue A → Result (A × Queue A)
  popleft q = do assert (not q.popped); a ← head q; ok (a, record q { popped = true })

  pub append : A → Queue A → Result (Queue A)
  append value q = do
    assert (not (is_some q.to_append))
    assert (ltb (length q.queue) q.capacity)
    ok (record q { to_append = some value })

  pub can_append : Queue A → Bool
  can_append q = ltb (length q.queue) q.capacity && not (is_some q.to_append)

  -- The queue after the pop; an empty one raises.
  abbrev pub after_pop : Bool → List A → Result (List A)
  after_pop false xs = ok xs
  after_pop true [] = err index_error
  after_pop true (x ∷ xs) = ok xs

  pub update : Queue A → Result (Queue A)
  update q = do
    rest ← after_pop q.popped q.queue
    ok (record q { queue = with_appended rest q.to_append; popped = false; to_append = none })
