-- ===== src/Prelude/Equality.antt =====
-- Equality tests: one operator for the types that the program compares.
use Prim.Native.Nat.{ℕ, compare, Ordering}
use Prim.Native.String.{String}
use mathlib.Core.Path.{◌≡◌, refl, ap, ap₂}
use mathlib.Core.Logic.{◌↔◌}
use mathlib.Core.Bool.{Bool, true, false, ◌&&◌}
use native.Mathlib.Omega.{arith}
use text.Mathlib.Text.{◌==◌ as str_eq}
use text.Mathlib.TextEquality.{eq_iff}
use ngraph.Prelude.Tests.{and-true}

pub record Comparable {ℓ} (A : Type ℓ) : Type ℓ where
  pub beq : A → A → Bool
  pub beq_iff : (a b : A) → (beq a b ≡ true) ↔ (a ≡ b)

abbrev pub nat_beq : ℕ → ℕ → Bool
nat_beq a b = elim (compare a b) [ Ordering.eq ↦ true | _ ↦ false ]

pub nat_beq_iff : (a b : ℕ) → (nat_beq a b ≡ true) ↔ (a ≡ b)
nat_beq_iff a b = ground arith

instance abbrev pub string_eq : Comparable String
string_eq = record { beq = str_eq; beq_iff = eq_iff }

instance abbrev pub nat_eq : Comparable ℕ
nat_eq = record { beq = nat_beq; beq_iff = nat_beq_iff }

infix 50 ◌==◌
abbrev pub ◌==◌ {ℓ} : {A : Type ℓ} ⦃e : Comparable A⦄ → A → A → Bool
◌==◌ ⦃e⦄ = e.beq

pub beq_refl {ℓ} : {A : Type ℓ} ⦃e : Comparable A⦄ (a : A) → (a == a) ≡ true
beq_refl ⦃e⦄ a = (e.beq_iff a a).1 refl

pub pair_beq_iff {ℓ κ} :
    {A : Type ℓ} {B : Type κ} ⦃d : Comparable A⦄ ⦃e : Comparable B⦄ (x y : A × B)
    → ((x.0 == y.0 && x.1 == y.1) ≡ true) ↔ (x ≡ y)
pair_beq_iff ⦃d⦄ ⦃e⦄ (a, b) (c, f) = (
  λ h. ap₂ (λ x y. (x, y)) ((d.beq_iff a c).0 (and-true h).0) ((e.beq_iff b f).0 (and-true h).1),
  λ h. cc (ap (λ z. z.0 == c) h, ap (λ z. z.1 == f) h, beq_refl c, beq_refl f),
)

instance abbrev pub pair_eq {ℓ κ} :
    {A : Type ℓ} {B : Type κ} ⦃d : Comparable A⦄ ⦃e : Comparable B⦄ → Comparable (A × B)
pair_eq = record { beq = λ x y. x.0 == y.0 && x.1 == y.1; beq_iff = pair_beq_iff }
