-- ===== src/Base/Outcomes.antt =====
-- Runs that may end the process: an exception that nothing catches, or a write past an object.
use mathlib.Core.Path.{◌≡◌, refl}
use mathlib.Core.Bool.{Bool, true, false}
use inf.Base.Tests.{if◌then◌else◌}
use mathlib.Core.Option.{Option, none, some}

pub data Crash : Type 0 where
  -- A jsoncpp accessor threw.
  json_error : Crash
  -- `at` on a missing key of a map.
  out_of_range : Crash
  -- A write past the end of the object.
  overrun : Crash

pub data Outcome {ℓ} (A : Type ℓ) : Type ℓ where
  ok : A → Outcome A
  crash : Crash → Outcome A

infixl 10 ◌>>=◌
abbrev pub ◌>>=◌ {ℓ κ} : {A : Type ℓ} {B : Type κ} → Outcome A → (A → Outcome B) → Outcome B
ok a >>= f = f a
crash c >>= f = crash c

abbrev pub or_crash {ℓ} : {A : Type ℓ} → Option A → Crash → Outcome A
or_crash none c = crash c
or_crash (some a) c = ok a

-- The run ends well, in a result that satisfies the predicate.
abbrev pub Returns {ℓ} : {A : Type ℓ} → Outcome A → (A → Type 0) → Type 0
Returns (ok a) P = P a
Returns (crash c) P = ⊥

-- To go on from a run that returns.
pub Returns-ok {ℓ} :
    {A : Type ℓ} (P : A → Type 0) (m : Outcome A) → Returns m P → (a : A) × (m ≡ ok a) × P a
Returns-ok P (ok a) h = (a, refl, h)
Returns-ok P (crash c) h = absurd h

pub Returns-bind {ℓ κ} :
    {A : Type ℓ} {B : Type κ} (P : A → Type 0) (Q : B → Type 0) (m : Outcome A) (f : A → Outcome B)
    → Returns m P
    → ((a : A) → P a → Returns (f a) Q)
    → Returns (m >>= f) Q
Returns-bind P Q (ok a) f h k = k a h
Returns-bind P Q (crash c) f h k = absurd h

pub Returns-mono {ℓ} :
    {A : Type ℓ} (P Q : A → Type 0) (m : Outcome A)
    → ((a : A) → P a → Q a)
    → Returns m P
    → Returns m Q
Returns-mono P Q (ok a) f h = f a h
Returns-mono P Q (crash c) f h = absurd h

pub Returns-and {ℓ} :
    {A : Type ℓ} (P Q : A → Type 0) (m : Outcome A)
    → Returns m P
    → Returns m Q
    → Returns m (λ a. P a × Q a)
Returns-and P Q (ok a) h k = (h, k)
Returns-and P Q (crash c) h k = absurd h

pub Returns-if {ℓ} :
    {A : Type ℓ} (P : A → Type 0) (b : Bool) (x y : Outcome A)
    → Returns x P
    → Returns y P
    → Returns (if b then x else y) P
Returns-if P true x y h k = h
Returns-if P false x y h k = k

-- A run that returns and then ends in a crash.
pub Returns-crash {ℓ κ} :
    {A : Type ℓ} {B : Type κ} (P : A → Type 0) (m : Outcome A) (f : A → Outcome B) (c : Crash)
    → Returns m P
    → ((a : A) → P a → f a ≡ crash c)
    → (m >>= f) ≡ crash c
Returns-crash P (ok a) f c h k = k a h
Returns-crash P (crash d) f c h k = absurd h
