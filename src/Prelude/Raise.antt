-- ===== src/Prelude/Raise.antt =====
-- Python's exceptions as values: `err` holds what was raised.
use mathlib.Core.Path.{◌≡◌, refl}
use mathlib.Core.Bool.{Bool, true, false}
use mathlib.Core.Option.{Option, none, some}

pub data Result (E A : Type 0) : Type 0 where
  ok : A → Result E A
  err : E → Result E A

-- The rest of a body runs only when nothing was raised.
infixl 5 ◌>>=◌ ◌>>◌
abbrev pub ◌>>=◌ : {E A B : Type 0} → Result E A → (A → Result E B) → Result E B
m >>= rest = elim m [ err raised ↦ err raised | ok value ↦ rest value ]

abbrev pub ◌>>◌ : {E B : Type 0} → Result E (Unit {0}) → Result E B → Result E B
◌>>◌ m rest = elim m [ err raised ↦ err raised | ok _ ↦ rest ]

-- `if test: raise e`
abbrev pub raise_if : {E : Type 0} → Bool → E → Result E (Unit {0})
raise_if true raised = err raised
raise_if false _ = ok tt

abbrev pub or_raise : {E A : Type 0} → Option A → E → Result E A
or_raise found raised = elim found [ none ↦ err raised | some value ↦ ok value ]

pub >>=-ok :
    {E A B : Type 0} (m : Result E A) (rest : A → Result E B) {result : B}
    → (m >>= rest) ≡ ok result
    → (value : A) × (m ≡ ok value) × (rest value ≡ ok result)
>>=-ok (err raised) rest h = cc
>>=-ok (ok value) rest h = (value, refl, h)

pub raise_if-ok :
    {E B : Type 0} (test : Bool) (raised : E) (rest : Result E B) {result : B}
    → (raise_if test raised >> rest) ≡ ok result
    → (test ≡ false) × (rest ≡ ok result)
raise_if-ok true raised rest h = cc
raise_if-ok false raised rest h = (refl, h)

pub or_raise-ok :
    {E A : Type 0} (found : Option A) (raised : E) {result : A}
    → or_raise found raised ≡ ok result
    → found ≡ some result
or_raise-ok none raised h = cc
or_raise-ok (some value) raised h = cc
