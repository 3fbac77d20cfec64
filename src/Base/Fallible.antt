-- ===== src/Base/Fallible.antt =====
-- Results of fallible code: `ok`, an error value that the code returns, or a panic.
use mathlib.Core.Bool.{Bool, true, false, true≢false}
use mathlib.Core.Path.{◌≡◌, refl, sym, ap}

pub data Result {ℓ} (E : Type ℓ) (A : Type ℓ) : Type ℓ where
  ok : A → Result E A
  err : E → Result E A

infixl 5 ◌>>=◌ ◌>>◌
abbrev pub ◌>>=◌ {ℓ} : {E A B : Type ℓ} → Result E A → (A → Result E B) → Result E B
ok a >>= f = f a
err e >>= f = err e

abbrev pub ◌>>◌ {ℓ} : {E B : Type ℓ} → Result E (Unit {ℓ}) → Result E B → Result E B
m >> k = m >>= λ _. k

-- `if test { return err }` goes on where the test fails.
abbrev pub refuse {ℓ} : {E : Type ℓ} → Bool → E → Result E (Unit {ℓ})
refuse true e = err e
refuse false e = ok tt

abbrev is_ok {ℓ} : {E A : Type ℓ} → Result E A → Bool
is_ok (ok a) = true
is_ok (err e) = false

abbrev ok_or {ℓ} : {E A : Type ℓ} → A → Result E A → A
ok_or a (ok b) = b
ok_or a (err e) = a

pub ok_injective {ℓ} : {E A : Type ℓ} {a b : A} → ◌≡◌ {A = Result E A} (ok a) (ok b) → a ≡ b
ok_injective {a = a} h = ap (ok_or a) h

-- What comes first in a sequence that succeeds has succeeded.
pub bind_ok {ℓ} :
    {E A B : Type ℓ} (m : Result E A) (f : A → Result E B) (b : B)
    → (m >>= f) ≡ ok b
    → (a : A) × (m ≡ ok a) × (f a ≡ ok b)
bind_ok (ok a) f b run = (a, refl, run)
bind_ok (err e) f b run = absurd (true≢false (sym (ap is_ok run)))

pub refuse_ok {ℓ} :
    {E : Type ℓ} (test : Bool) (e : E) (u : Unit {ℓ}) → refuse test e ≡ ok u → test ≡ false
refuse_ok true e u run = absurd (true≢false (sym (ap is_ok run)))
refuse_ok false e u run = refl
