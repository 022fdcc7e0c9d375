-- ===== src/Base/Outcomes.antt =====
-- What a piece of C++ can come to: a value, undefined behaviour, or no end within the fuel.
use mathlib.Core.Path.{◌≡◌, refl, subst}
use mathlib.Core.Logic.{◌⊎◌, inl, inr}
use mathlib.Core.Bool.{Bool, true, false}
use apduplay.Base.Tests.{if◌then◌else◌}

pub data Fault : Type 0 where
  -- an access outside a buffer
  out_of_bounds : Fault
  -- an iterator moved past the end of its list, or dereferenced there
  past_end : Fault
  -- `%` by zero
  zero_divisor : Fault
  -- a pointer used after its object was deleted
  dangling : Fault
  -- a call through a pointer that is NULL
  null_call : Fault
  -- an exception of the standard library that nobody catches
  uncaught : Fault
  -- the loop was still running when the fuel ran out
  no_fuel : Fault

pub data Outcome {ℓ} (A : Type ℓ) : Type ℓ where
  ok : A → Outcome A
  fault : Fault → Outcome A

module _ {ℓ κ} {A : Type ℓ} {B : Type κ} where
  infixl 5 ◌>>=◌
  abbrev pub ◌>>=◌ : Outcome A → (A → Outcome B) → Outcome B
  fault why >>= next = fault why
  ok a >>= next = next a

  -- What a sequence that came to a value went through.
  pub >>=-eq-ok :
      (first : Outcome A) (next : A → Outcome B) {b : B}
      → first >>= next ≡ ok b
      → (a : A) × (first ≡ ok a) × (next a ≡ ok b)
  >>=-eq-ok (fault why) next came = cc
  >>=-eq-ok (ok a) next came = (a, refl, came)

-- A step that changes nothing can be left out.
pub >>=-idle {ℓ} :
    {A : Type ℓ} (first : Outcome A) (next : A → Outcome A)
    → ((a : A) → next a ≡ ok a)
    → first >>= next ≡ first
>>=-idle (fault why) next h = refl
>>=-idle (ok a) next h = h a

-- Every value that the code comes to has the property.
abbrev pub Whenever {ℓ κ} : {A : Type ℓ} → (A → Type κ) → Outcome A → Type κ
Whenever P (fault why) = Unit
Whenever P (ok a) = P a

pub Whenever-bind {ℓ κ ι μ} :
    {A : Type ℓ} {B : Type κ} (P : A → Type ι) (Q : B → Type μ) (first : Outcome A)
    (next : A → Outcome B)
    → Whenever P first
    → ((a : A) → P a → Whenever Q (next a))
    → Whenever Q (first >>= next)
Whenever-bind P Q (fault why) next h k = tt
Whenever-bind P Q (ok a) next h k = k a h

pub Whenever-then {ℓ κ μ} :
    {A : Type ℓ} {B : Type κ} (Q : B → Type μ) (first : Outcome A) (next : A → Outcome B)
    → ((a : A) → Whenever Q (next a))
    → Whenever Q (first >>= next)
Whenever-then Q (fault why) next k = tt
Whenever-then Q (ok a) next k = k a

pub Whenever-ok {ℓ κ} :
    {A : Type ℓ} (P : A → Type κ) (o : Outcome A) {a : A} → Whenever P o → o ≡ ok a → P a
Whenever-ok P (fault why) h e = cc
Whenever-ok P (ok b) h e = subst (Whenever P) e h

pub Whenever-if {ℓ κ} :
    {A : Type ℓ} (P : A → Type κ) (b : Bool) (x y : Outcome A)
    → Whenever P x
    → Whenever P y
    → Whenever P (if b then x else y)
Whenever-if P true x y hx hy = hx
Whenever-if P false x y hx hy = hy

pub Whenever-any {ℓ} : {A : Type ℓ} (o : Outcome A) → Whenever (λ a. Unit {0}) o
Whenever-any (fault why) = tt
Whenever-any (ok a) = tt

pub Whenever-weaken {ℓ κ ι} :
    {A : Type ℓ} (P : A → Type κ) (Q : A → Type ι) (o : Outcome A)
    → Whenever P o
    → ((a : A) → P a → Q a)
    → Whenever Q o
Whenever-weaken P Q (fault why) h k = tt
Whenever-weaken P Q (ok a) h k = k a h

pub Outcome-cases {ℓ} :
    {A : Type ℓ} (o : Outcome A) → ((why : Fault) × (o ≡ fault why)) ⊎ ((a : A) × (o ≡ ok a))
Outcome-cases (fault why) = inl (why, refl)
Outcome-cases (ok a) = inr (a, refl)
