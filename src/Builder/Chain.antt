-- ===== src/Builder/Chain.antt =====
-- The chain of a handler's calls: `TF_RETURN_IF_ERROR` as a bind that stays shut, so that a proof
-- about a handler sees its steps.
use ngraph.Prelude.{◌≡◌, refl}
use ngraph.Prelude.Status.{Status, ok, err}

infixl 5 ◌>>=◌ ◌>>◌
unfoldable pub ◌>>=◌ {ℓ κ} : {A : Type ℓ} {B : Type κ} → Status A → (A → Status B) → Status B
ok a >>= f = f a
err c >>= f = err c

abbrev pub ◌>>◌ {ℓ κ} : {A : Type ℓ} {B : Type κ} → Status A → Status B → Status B
m >> k = m >>= λ _. k

-- a chain that succeeds has a first step that does
pub chain-ok {ℓ κ} :
    {A : Type ℓ} {B : Type κ} (m : Status A) (next : A → Status B) {b : B}
    → (m >>= next) ≡ ok b
    → (x : A) × (m ≡ ok x) × (next x ≡ ok b)
unfolding ◌>>=◌
chain-ok (ok x) next h = (x, refl, h)
chain-ok (err c) next h = cc
