-- ===== src/Common/Results.antt =====
-- What a python call yields: a value, or the exception that ends it.
use mathlib.Core.Path.{◌≡◌, refl}
use mathlib.Core.Logic.{◌⊎◌, inl, inr}
use mathlib.Core.Bool.{Bool, true, false}
use mathlib.Core.Option.{Option, none, some}
use mathlib.Core.List.{List, [], ◌∷◌}

pub data Error : Type 0 where
  assertion memory_error value_error index_error key_error zero_division not_implemented : Error

pub data Result {ℓ} (A : Type ℓ) : Type ℓ where
  ok : A → Result A
  err : Error → Result A

-- `d[k]` or the like, where the value may be missing.
abbrev pub or_raise {ℓ} : {A : Type ℓ} → Option A → Error → Result A
or_raise (some a) e = ok a
or_raise none e = err e

-- `raise e` where `b` fails.
abbrev pub guard : Bool → Error → Result (Unit {0})
guard false e = err e
guard true _ = ok tt

-- `assert b`
abbrev pub assert : Bool → Result (Unit {0})
assert false = err assertion
assert true = ok tt

-- A call, and what follows where it does not raise.
infixl 5 ◌>>=◌ ◌>>◌
abbrev pub ◌>>=◌ {ℓ κ} : {A : Type ℓ} {B : Type κ} → Result A → (A → Result B) → Result B
err e >>= k = err e
ok value >>= k = k value

abbrev pub ◌>>◌ {ℓ} : {B : Type ℓ} → Result (Unit {0}) → Result B → Result B
first >> then_do = first >>= λ _. then_do

-- Inversion of a successful bind, for proofs where the parts stay shut.
pub >>=-eq-ok {ℓ κ} :
    {Value : Type ℓ} {Next : Type κ} (call : Result Value) (k : Value → Result Next) {final : Next}
    → (call >>= k) ≡ ok final
    → (value : Value) × (call ≡ ok value) × (k value ≡ ok final)
>>=-eq-ok (err e) k raised = cc
>>=-eq-ok (ok value) k done = (value, refl, done)

pub Result-cases {ℓ} :
    {A : Type ℓ} (r : Result A) → ((a : A) × (r ≡ ok a)) ⊎ ((e : Error) × (r ≡ err e))
Result-cases (ok a) = inl (a, refl)
Result-cases (err e) = inr (e, refl)

-- A success went past the assertion.
pub assert-then {ℓ} :
    {B : Type ℓ} (b : Bool) (m : Result B) {x : B}
    → (assert b >>= λ _. m) ≡ ok x
    → (b ≡ true) × (m ≡ ok x)
assert-then true m h = (refl, h)
assert-then false m h = cc

pub guard-then {ℓ} :
    {B : Type ℓ} (b : Bool) (e : Error) (m : Result B) {x : B}
    → (guard b e >>= λ _. m) ≡ ok x
    → (b ≡ true) × (m ≡ ok x)
guard-then true e m h = (refl, h)
guard-then false e m h = cc

pub or_raise-then {ℓ κ} :
    {A : Type ℓ} {B : Type κ} (o : Option A) (e : Error) (f : A → Result B) {x : B}
    → (or_raise o e >>= f) ≡ ok x
    → (a : A) × (o ≡ some a) × (f a ≡ ok x)
or_raise-then none e f h = cc
or_raise-then (some a) e f h = (a, refl, h)

-- A row of assertions.
abbrev pub assert_all : List Bool → Result (Unit {0})
assert_all [] = ok tt
assert_all (b ∷ bs) = assert b >> assert_all bs

abbrev pub AllTrue : List Bool → Type 0
AllTrue [] = Unit {0}
AllTrue (b ∷ bs) = (b ≡ true) × AllTrue bs

pub assert_all-AllTrue : (bs : List Bool) → assert_all bs ≡ ok tt → AllTrue bs
assert_all-AllTrue [] h = tt
assert_all-AllTrue (true ∷ bs) h = (refl, assert_all-AllTrue bs h)
assert_all-AllTrue (false ∷ bs) h = cc

pub ok_unique {ℓ} : {A : Type ℓ} {a b : A} → ok a ≡ ok b → a ≡ b
ok_unique e = cc
