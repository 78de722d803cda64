-- ===== src/Outcome.antt =====
-- exit.cpp: how a call of the interpreter's functions can end.
use Prim.Native.String.{String}
use ctutor.Base.{◌≡◌, refl, Bool, true, false, if◌then◌else◌}

-- The message that each exit function hands to `debug_dump` before `exit(1)`.
pub data Error : Type 0 where
  cant_handle bad_memwrite bad_memread cant_cast err_undef : Error
  err_exit : String → Error

-- `undefined` marks C++ behaviour that the language leaves undefined: a null or dangling
-- dereference, a read of an indeterminate value, a second delete.
-- `out_of_fuel` is the model's own: a loop was given too few rounds.
pub data Outcome {ℓ} (A : Type ℓ) : Type ℓ where
  ok : A → Outcome A
  exits : Error → Outcome A
  undefined : Outcome A
  out_of_fuel : Outcome A

infixl 5 ◌>>=◌ ◌>>◌
abbrev pub ◌>>=◌ {ℓ κ} : {A : Type ℓ} {B : Type κ} → Outcome A → (A → Outcome B) → Outcome B
ok a >>= f = f a
exits e >>= f = exits e
undefined >>= f = undefined
out_of_fuel >>= f = out_of_fuel

abbrev pub ◌>>◌ {ℓ κ} : {A : Type ℓ} {B : Type κ} → Outcome A → Outcome B → Outcome B
m >> k = m >>= λ _. k

-- What a chain that gives a result went through.
pub >>=-ok_parts {ℓ κ} :
    {X : Type ℓ} {Y : Type κ} {y : Y} (first : Outcome X) (then_do : X → Outcome Y)
    → (first >>= then_do) ≡ ok y
    → (x : X) × (first ≡ ok x) × (then_do x ≡ ok y)
>>=-ok_parts out_of_fuel k e = cc
>>=-ok_parts undefined k e = cc
>>=-ok_parts (exits message) k e = cc
>>=-ok_parts (ok x) k e = (x, refl, e)

pub ok-injective {ℓ} : {A : Type ℓ} {a b : A} → ok a ≡ ok b → a ≡ b
ok-injective h = cc

-- A guard that a result went past.
pub guard-ok {ℓ} :
    {A : Type ℓ} (c : Bool) (e : Error) (x : Outcome A) {a : A}
    → (if c then exits e else x) ≡ ok a
    → (c ≡ false) × (x ≡ ok a)
guard-ok true e x h = cc
guard-ok false e x h = (refl, h)
