-- ===== src/Base/Faults.antt =====
-- What a call can come to. `assert_failed` is a failed `assert`, `out_of_range` the exception of
-- `cuckoohash_map::find`, and `undefined` a step with undefined behaviour, such as a read through
-- an iterator that is no longer valid or a division by zero. `out_of_fuel` ends a model's recursion.
use mathlib.Core.Path.{◌≡◌, refl}
use mathlib.Core.Logic.{◌⊎◌, inl, inr}
use mathlib.Core.Bool.{Bool, true, false}
use mathlib.Core.Option.{Option, none, some}

pub data Fault : Type 0 where
  assert_failed out_of_range undefined out_of_fuel : Fault

pub data Result {ℓ} (A : Type ℓ) : Type ℓ where
  ok : A → Result A
  fault : Fault → Result A

-- `assert(b)`
abbrev pub assert : Bool → Result (Unit {0})
assert true = ok tt
assert false = fault assert_failed

-- A lookup that raises `e` where there is nothing.
abbrev pub or_fault {ℓ} : {A : Type ℓ} → Option A → Fault → Result A
or_fault none e = fault e
or_fault (some a) e = ok a

-- What comes after a call that went well. A fault ends the whole.
infixl 5 ◌>>=◌ ◌>>◌
abbrev pub ◌>>=◌ {κ ℓ} : {X : Type κ} {Y : Type ℓ} → Result X → (X → Result Y) → Result Y
fault stop >>= next = fault stop
ok x >>= next = next x

abbrev pub ◌>>◌ {κ} : {Y : Type κ} → Result (Unit {0}) → Result Y → Result Y
fault stop >> rest = fault stop
ok done >> rest = rest

-- The result is there, and has the property.
abbrev pub Returns {ℓ κ} : {A : Type ℓ} → Result A → (A → Type κ) → Type (ℓ ⊔ κ)
Returns {A} r P = (a : A) × (r ≡ ok a) × P a

-- Where the whole goes well, so do the call and what comes after it.
pub >>=-parts {κ ℓ} :
    {X : Type κ} {Y : Type ℓ} (next : X → Result Y) (call : Result X) (y : Y)
    → call >>= next ≡ ok y
    → (x : X) × (next x ≡ ok y) × (call ≡ ok x)
>>=-parts next (fault stop) y run = cc
>>=-parts next (ok x) y run = (x, run, refl)

pub >>=_assoc {ℓ κ ι} :
    {A : Type ℓ} {B : Type κ} {D : Type ι} (m : Result A) (f : A → Result B) (g : B → Result D)
    → (m >>= λ a. f a >>= g) ≡ (m >>= f >>= g)
>>=_assoc (ok a) f g = refl
>>=_assoc (fault e) f g = refl

pub Result-cases {ℓ} :
    {A : Type ℓ} (r : Result A) → ((a : A) × (r ≡ ok a)) ⊎ ((e : Fault) × (r ≡ fault e))
Result-cases (ok a) = inl (a, refl)
Result-cases (fault e) = inr (e, refl)
