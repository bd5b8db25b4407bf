-- ===== src/Prelude/Results.antt =====
-- Calls that may raise: a value or the exception, with the exception's type as a parameter.
use mathlib.Core.Path.{◌≡◌, refl}
use mathlib.Core.Logic.{◌⊎◌, inl, inr}
use mathlib.Core.Bool.{Bool, true, false}

pub data Result (E : Type 0) (A : Type 0) : Type 0 where
  err : E → Result E A
  ok : A → Result E A

module _ {E : Type 0} where
  -- `if test: raise exception`
  abbrev pub raise_if : Bool → E → Result E (Unit {0})
  raise_if false exception = ok tt
  raise_if true exception = err exception

  -- A call inside `try … except` that raises another exception instead.
  abbrev pub reraise : {F A : Type 0} → E → Result F A → Result E A
  reraise exception (err _) = err exception
  reraise exception (ok value) = ok value

  -- The next statement of a block, with the value of this one, unless this one raises.
  infixl 5 ◌>>=◌
  abbrev pub ◌>>=◌ : {A B : Type 0} → Result E A → (A → Result E B) → Result E B
  err exception >>= next = err exception
  ok value >>= next = next value

  -- The next statement, where this one's value is not used.
  infixl 5 ◌>>◌
  abbrev pub ◌>>◌ : {A B : Type 0} → Result E A → Result E B → Result E B
  err exception >> next = err exception
  ok value >> next = next

module _ {E : Type 0} where
  pub Result-cases :
      {A : Type 0} (r : Result E A) → ((a : A) × (r ≡ ok a)) ⊎ ((e : E) × (r ≡ err e))
  Result-cases (ok a) = inl (a, refl)
  Result-cases (err e) = inr (e, refl)

  -- What a chain of calls that returned says of its first call.
  pub >>-eq-ok :
      {A B : Type 0} (m : Result E A) (k : Result E B) {b : B}
      → (m >> k) ≡ ok b
      → ((a : A) × (m ≡ ok a)) × (k ≡ ok b)
  >>-eq-ok (ok a) k h = ((a, refl), h)
  >>-eq-ok (err e) k h = absurd (cc)

  pub raise_if-eq-ok : (c : Bool) (e : E) {u : Unit {0}} → raise_if c e ≡ ok u → c ≡ false
  raise_if-eq-ok true e h = cc
  raise_if-eq-ok false e h = refl

  pub reraise-eq-ok :
      {F A : Type 0} (e : E) (r : Result F A) {a : A} → reraise e r ≡ ok a → r ≡ ok a
  reraise-eq-ok e (ok a) h = cc
  reraise-eq-ok e (err _) h = absurd (cc)
