-- ===== src/Prelude/Run.antt =====
-- What a call of the program ends in.
use mathlib.Core.Path.{◌≡◌, refl}
use mathlib.Core.Logic.{◌⊎◌, inl, inr}
use mathlib.Core.Bool.{Bool, true, false}
use mathlib.Core.Option.{Option, none, some}
use bit_torrent_client.Prelude.Tests.{if◌then◌else◌}

-- The exceptions of the standard library that the program throws or lets through. `no_answer` is
-- none of them and no handler catches it: a call that waits for ever.
pub data Error : Type 0 where
  invalid_argument runtime_error out_of_range system_error length_error no_answer : Error

-- `throws` is an exception, `fault` is undefined behaviour (an access out of bounds, a division by
-- zero) or an assertion that fails, and `out_of_fuel` has no counterpart in the program.
pub data Outcome {ℓ} (A : Type ℓ) : Type ℓ where
  ok : A → Outcome A
  throws : Error → Outcome A
  fault out_of_fuel : Outcome A

infixl 5 ◌>>=◌ ◌>>◌
abbrev pub ◌>>=◌ {ℓ κ} : {A : Type ℓ} {B : Type κ} → Outcome A → (A → Outcome B) → Outcome B
ok a >>= f = f a
throws e >>= f = throws e
fault >>= f = fault
out_of_fuel >>= f = out_of_fuel

abbrev pub ◌>>◌ {ℓ} : {B : Type ℓ} → Outcome (Unit {0}) → Outcome B → Outcome B
m >> k = m >>= λ _. k

-- `if (!b) throw e;`
abbrev pub guard : Bool → Error → Outcome (Unit {0})
guard true e = ok tt
guard false e = throws e

-- A read through an index: out of bounds it is undefined behaviour.
abbrev pub or_fault {ℓ} : {A : Type ℓ} → Option A → Outcome A
or_fault none = fault
or_fault (some a) = ok a

abbrev pub or_throw {ℓ} : {A : Type ℓ} → Option A → Error → Outcome A
or_throw none e = throws e
or_throw (some a) e = ok a

-- The call ends by itself, in a value or an exception, and a value satisfies `P`.
abbrev pub Settles {ℓ} : {A : Type ℓ} → (A → Type 0) → Outcome A → Type 0
Settles P (ok a) = P a
Settles P (throws e) = Unit
Settles P fault = Unit
Settles P out_of_fuel = ⊥

pub Settles-bind {ℓ κ} :
    {A : Type ℓ} {B : Type κ} (P : A → Type 0) (Q : B → Type 0) (m : Outcome A) (f : A → Outcome B)
    → Settles P m
    → ((a : A) → P a → Settles Q (f a))
    → Settles Q (m >>= f)
Settles-bind P Q (ok a) f h k = k a h
Settles-bind P Q (throws e) f h k = tt
Settles-bind P Q fault f h k = tt
Settles-bind P Q out_of_fuel f h k = absurd h

-- The value is also the one that the call returned.
pub Settles-eq :
    {A : Type 0} (P : A → Type 0) (m : Outcome A) → Settles P m → Settles (λ a. P a × (m ≡ ok a)) m
Settles-eq P (ok a) h = (h, refl)
Settles-eq P (throws e) h = tt
Settles-eq P fault h = tt
Settles-eq P out_of_fuel h = h

pub Settles-mono {ℓ} :
    {A : Type ℓ} (P Q : A → Type 0) (m : Outcome A)
    → Settles P m
    → ((a : A) → P a → Q a)
    → Settles Q m
Settles-mono P Q (ok a) h k = k a h
Settles-mono P Q (throws e) h k = tt
Settles-mono P Q fault h k = tt
Settles-mono P Q out_of_fuel h k = absurd h

-- A value that the call returns satisfies `P`.
abbrev pub Returns {ℓ} : {A : Type ℓ} → (A → Type 0) → Outcome A → Type 0
Returns P (ok a) = P a
Returns P (throws e) = Unit
Returns P fault = Unit
Returns P out_of_fuel = Unit

pub Returns-bind {ℓ κ} :
    {A : Type ℓ} {B : Type κ} (P : A → Type 0) (Q : B → Type 0) (m : Outcome A) (f : A → Outcome B)
    → Returns P m
    → ((a : A) → P a → Returns Q (f a))
    → Returns Q (m >>= f)
Returns-bind P Q (ok a) f h k = k a h
Returns-bind P Q (throws e) f h k = tt
Returns-bind P Q fault f h k = tt
Returns-bind P Q out_of_fuel f h k = tt

pub Returns-eq {ℓ} :
    {A : Type ℓ} (P : A → Type 0) (m : Outcome A) → ((a : A) → m ≡ ok a → P a) → Returns P m
Returns-eq P (ok a) k = k a refl
Returns-eq P (throws e) k = tt
Returns-eq P fault k = tt
Returns-eq P out_of_fuel k = tt

pub Returns-both {ℓ} :
    {A : Type ℓ} (P Q : A → Type 0) (m : Outcome A)
    → Returns P m
    → Returns Q m
    → Returns (λ a. P a × Q a) m
Returns-both P Q (ok a) h k = (h, k)
Returns-both P Q (throws e) h k = tt
Returns-both P Q fault h k = tt
Returns-both P Q out_of_fuel h k = tt

-- Nothing is known of what the call returns.
pub Returns-any {ℓ} : {A : Type ℓ} (m : Outcome A) → Returns (λ a. Unit {0}) m
Returns-any (ok a) = tt
Returns-any (throws e) = tt
Returns-any fault = tt
Returns-any out_of_fuel = tt

-- The call ends by itself, whatever it ends in.
unfoldable pub IsSettled {ℓ} : {A : Type ℓ} → Outcome A → Type 0
IsSettled (ok a) = Unit
IsSettled (throws e) = Unit
IsSettled fault = Unit
IsSettled out_of_fuel = ⊥

pub IsSettled-fault {ℓ} : (A : Type ℓ) → IsSettled {A = A} fault
unfolding IsSettled
IsSettled-fault A = tt

pub IsSettled-throws {ℓ} : (A : Type ℓ) (e : Error) → IsSettled {A = A} (throws e)
unfolding IsSettled
IsSettled-throws A e = tt

pub unsettled {ℓ} : (A : Type ℓ) → IsSettled {A = A} out_of_fuel → ⊥
unfolding IsSettled
unsettled A h = h

module _ {ℓ} {A : Type ℓ} where
  pub IsSettled-ok : (a : A) → IsSettled (ok a)
  unfolding IsSettled
  IsSettled-ok a = tt

  pub IsSettled-or_fault : (o : Option A) → IsSettled (or_fault o)
  IsSettled-or_fault none = IsSettled-fault A
  IsSettled-or_fault (some a) = IsSettled-ok a

  pub IsSettled-if :
      (b : Bool) (m n : Outcome A) → IsSettled m → IsSettled n → IsSettled (if b then m else n)
  IsSettled-if true m n h k = h
  IsSettled-if false m n h k = k

pub IsSettled-elim {ℓ κ} :
    {A : Type ℓ} {B : Type κ} (o : Option A) (m : Outcome B) (f : A → Outcome B)
    → IsSettled m
    → ((a : A) → IsSettled (f a))
    → IsSettled (elim o [ none ↦ m | some a ↦ f a ])
IsSettled-elim none m f h k = h
IsSettled-elim (some a) m f h k = k a

pub IsSettled-bind {ℓ κ} :
    {A : Type ℓ} {B : Type κ} (m : Outcome A) (f : A → Outcome B)
    → IsSettled m
    → ((a : A) → IsSettled (f a))
    → IsSettled (m >>= f)
unfolding IsSettled
IsSettled-bind (ok a) f h k = k a
IsSettled-bind (throws e) f h k = tt
IsSettled-bind fault f h k = tt
IsSettled-bind out_of_fuel f h k = h

pub Outcome-cases {ℓ} :
    {A : Type ℓ} (m : Outcome A)
    → ((a : A) × (m ≡ ok a)) ⊎ (((e : Error) × (m ≡ throws e)) ⊎ ((m ≡ fault) ⊎ (m ≡ out_of_fuel)))
Outcome-cases (ok a) = inl (a, refl)
Outcome-cases (throws e) = inr (inl (e, refl))
Outcome-cases fault = inr (inr (inl refl))
Outcome-cases out_of_fuel = inr (inr (inr refl))
