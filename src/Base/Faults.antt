-- ===== src/Base/Faults.antt =====
-- Code that may abort: `none` is a failed assertion.
use mathlib.Core.Bool.{Bool, true, false}
use mathlib.Core.Option.{Option, none, some}
use mathlib.Core.Path.{◌≡◌, refl}
use Prim.{tt}

infixl 5 ◌>>=◌ ◌>>◌
abbrev pub ◌>>=◌ : {A B : Type 0} → Option A → (A → Option B) → Option B
none >>= f = none
some a >>= f = f a

abbrev pub ◌>>◌ : {B : Type 0} → Option (Unit {0}) → Option B → Option B
m >> k = m >>= λ _. k

abbrev pub assert : Bool → Option (Unit {0})
assert true = some tt
assert false = none

-- What holds of a result, if there is one.
abbrev pub Returns : {A : Type 0} → (A → Type 0) → Option A → Type 0
Returns P none = Unit
Returns P (some a) = P a

module _ {A B : Type 0} (P : A → Type 0) (Q : B → Type 0) where
  pub bind-Returns :
      (m : Option A) (f : A → Option B)
      → Returns P m
      → ((a : A) → P a → Returns Q (f a))
      → Returns Q (m >>= f)
  bind-Returns none f h k = tt
  bind-Returns (some a) f h k = k a h

module _ {A : Type 0} (P : A → Type 0) where
  -- After an assertion, what it asserts.
  pub assert-Returns :
      (b : Bool) (m : Option A) → (b ≡ true → Returns P m) → Returns P (assert b >> m)
  assert-Returns false m k = tt
  assert-Returns true m k = k refl

module _ {A B : Type 0} (Q : B → Type 0) where
  -- Whatever the first part gives.
  pub each-Returns :
      (m : Option A) (f : A → Option B) → ((a : A) → Returns Q (f a)) → Returns Q (m >>= f)
  each-Returns none f k = tt
  each-Returns (some a) f k = k a
