-- ===== src/Prelude/Results.antt =====
-- Results with an error of the component's own, and the inversion of their steps.
use mathlib.Core.Path.{◌≡◌, refl}
use mathlib.Core.Logic.{◌≢◌, ◌⊎◌, inl, inr}
use mathlib.Core.List.{List, [], ◌∷◌}
use mathlib.Core.Bool.{Bool, true, false, not}
use mathlib.Core.Option.{Option, none, some}
use dispatcher.Prelude.Lists.{is_empty}

pub data Result (E A : Type 0) : Type 0 where
  ok : A → Result E A
  err : E → Result E A

infixl 5 ◌>>=◌ ◌>>◌
unfoldable pub ◌>>=◌ : {E A B : Type 0} → Result E A → (A → Result E B) → Result E B
ok a >>= f = f a
err e >>= f = err e

abbrev pub ◌>>◌ : {E B : Type 0} → Result E (Unit {0}) → Result E B → Result E B
m >> k = m >>= λ _. k

-- `if !b { return e }`.
unfoldable pub check : {E : Type 0} → Bool → E → Result E (Unit {0})
check true e = ok tt
check false e = err e

-- A value of a call that may fail.
unfoldable pub require : {E A : Type 0} → Option A → E → Result E A
require none e = err e
require (some a) e = ok a

pub >>=_ok :
    {E A B : Type 0} (m : Result E A) (f : A → Result E B) {b : B}
    → (m >>= f) ≡ ok b
    → (a : A) × (m ≡ ok a) × (f a ≡ ok b)
unfolding ◌>>=◌
>>=_ok (ok a) f h = (a, refl, h)
>>=_ok (err e) f h = cc

pub check-ok :
    {E B : Type 0} (t : Bool) (e : E) (f : Unit {0} → Result E B) {b : B}
    → (check t e >>= f) ≡ ok b
    → (t ≡ true) × (f tt ≡ ok b)
unfolding check ◌>>=◌
check-ok true e f h = (refl, h)
check-ok false e f h = cc

pub require-ok :
    {E A B : Type 0} (o : Option A) (e : E) (f : A → Result E B) {b : B}
    → (require o e >>= f) ≡ ok b
    → (a : A) × (o ≡ some a) × (f a ≡ ok b)
unfolding require ◌>>=◌
require-ok none e f h = cc
require-ok (some a) e f h = (a, refl, h)

pub require-some : {E A : Type 0} (o : Option A) (e : E) {a : A} → require o e ≡ ok a → o ≡ some a
unfolding require
require-some none e h = cc
require-some (some a) e h = cc

pub check-true : {E : Type 0} (t : Bool) (e : E) {u : Unit {0}} → check t e ≡ ok u → t ≡ true
unfolding check
check-true true e h = refl
check-true false e h = cc

pub ok_injective : {E A : Type 0} {a b : A} → ◌≡◌ {A = Result E A} (ok a) (ok b) → a ≡ b
ok_injective h = cc

pub not→false : (b : Bool) → not b ≡ true → b ≡ false
not→false true h = cc
not→false false h = refl

pub not_empty_ok : {A : Type 0} (xs : List A) → not (is_empty xs) ≡ true → xs ≢ []
not_empty_ok [] h = λ e. cc
not_empty_ok (x ∷ xs) h = λ e. cc

pub Result-cases :
    {E A : Type 0} (r : Result E A) → ((a : A) × (r ≡ ok a)) ⊎ ((e : E) × (r ≡ err e))
Result-cases (ok a) = inl (a, refl)
Result-cases (err e) = inr (e, refl)
