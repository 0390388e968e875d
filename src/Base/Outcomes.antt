-- ===== src/Base/Outcomes.antt =====
-- What a call ends in. The source raises a Forth exception by `fth_throw`, which unwinds to the
-- innermost `catch`; a `fault` is an access outside the memory that a pointer owns, which C leaves
-- undefined.
use mathlib.Core.Path.{◌≡◌, refl}

pub data Exception : Type 0 where
  out_of_range wrong_type bad_arity : Exception

pub data Outcome {ℓ} (A : Type ℓ) : Type ℓ where
  ok : A → Outcome A
  throw : Exception → Outcome A
  fault : Outcome A

infixl 5 ◌>>=◌
abbrev pub ◌>>=◌ {ℓ κ} : {A : Type ℓ} {B : Type κ} → Outcome A → (A → Outcome B) → Outcome B
ok a >>= f = f a
throw e >>= f = throw e
fault >>= f = fault

pub bind_congr {ℓ κ} :
    {A : Type ℓ} {B : Type κ} (o : Outcome A) (f g : A → Outcome B)
    → ((a : A) → f a ≡ g a)
    → (o >>= f) ≡ (o >>= g)
bind_congr (ok a) f g h = h a
bind_congr (throw e) f g h = refl
bind_congr fault f g h = refl

-- `o` and the state that it leaves, and then `f` on both where it is a value
unfoldable pub and_then {ℓ κ μ} :
    {A : Type ℓ} {B : Type κ} {S : Type μ} → Outcome A × S → (A → S → Outcome B × S) → Outcome B × S
and_then (ok a, w) f = f a w
and_then (throw e, w) f = (throw e, w)
and_then (fault, w) f = (fault, w)
