-- ===== src/Prelude/Status.antt =====
-- `tensorflow::Status` with the result of the call: the error's code is kept, its message is not.
use mathlib.Core.Path.{◌≡◌, refl}
use mathlib.Core.Logic.{◌⊎◌, inl, inr}

-- `fatal` is a failed `CHECK`, undefined behaviour, or an exception that no handler of the model
-- catches; `thrown` is an exception on its way to the handler that does.
pub data Code : Type 0 where
  internal unimplemented invalid_argument not_found fatal thrown : Code

pub data Status {ℓ} (A : Type ℓ) : Type ℓ where
  ok : A → Status A
  err : Code → Status A

infixl 5 ◌>>=◌ ◌>>◌
abbrev pub ◌>>=◌ {ℓ κ} : {A : Type ℓ} {B : Type κ} → Status A → (A → Status B) → Status B
ok a >>= f = f a
err c >>= f = err c

abbrev pub ◌>>◌ {ℓ κ} : {A : Type ℓ} {B : Type κ} → Status A → Status B → Status B
m >> k = m >>= λ _. k

pub Status-cases {ℓ} :
    {A : Type ℓ} (m : Status A) → ((a : A) × (m ≡ ok a)) ⊎ ((c : Code) × (m ≡ err c))
Status-cases (ok a) = inl (a, refl)
Status-cases (err c) = inr (c, refl)

-- a chain that succeeds has a first step that does
pub >>=-eq-ok {ℓ κ} :
    {A : Type ℓ} {B : Type κ} (m : Status A) (next : A → Status B) {b : B}
    → (m >>= next) ≡ ok b
    → (x : A) × (m ≡ ok x) × (next x ≡ ok b)
>>=-eq-ok (ok x) next h = (x, refl, h)
>>=-eq-ok (err c) next h = cc
