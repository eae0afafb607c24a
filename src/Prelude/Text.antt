-- ===== src/Prelude/Text.antt =====
-- Numbers as a `std::stringstream` prints them.
use Prim.Native.Nat.{ℕ, zero, suc, ◌/◌, ◌%◌, ◌≤◌}
use Prim.Native.String.{String, ◌++◌}
use mathlib.Core.Path.{◌≡◌, refl}
use mathlib.Core.List.{List, [], ◌∷◌}
use mathlib.Core.Bool.{true, false}
use native.Mathlib.Omega.{arith}
use ngraph.Prelude.Tests.{ltb, if◌then◌else◌}

unfoldable pub digit : ℕ → String
digit zero = "0"
digit (suc zero) = "1"
digit (suc (suc zero)) = "2"
digit (suc (suc (suc zero))) = "3"
digit (suc (suc (suc (suc zero)))) = "4"
digit (suc (suc (suc (suc (suc zero))))) = "5"
digit (suc (suc (suc (suc (suc (suc zero)))))) = "6"
digit (suc (suc (suc (suc (suc (suc (suc zero))))))) = "7"
digit (suc (suc (suc (suc (suc (suc (suc (suc zero)))))))) = "8"
digit (suc (suc (suc (suc (suc (suc (suc (suc (suc _))))))))) = "9"

-- A number has at most as many digits as it counts, and one.
unfoldable digits : ℕ → ℕ → String
unfolding digit
digits zero n = digit n
digits (suc fuel) n = elim (ltb n 10) [
  | true ↦ digit n
  | false ↦ digits fuel (n / 10) ++ digit (n % 10)
]

unfoldable pub decimal : ℕ → String
unfolding digits
decimal n = digits n n

-- `strings::StrCat`, and a chain of `<<` on a stream
abbrev pub str_cat : List String → String
str_cat [] = ""
str_cat (s ∷ ss) = s ++ str_cat ss

digits_fuel : (f g n : ℕ) → n ≤ f → n ≤ g → digits f n ≡ digits g n
unfolding digits
digits_fuel zero zero n h k = refl
digits_fuel zero (suc g) n h k = ground arith
digits_fuel (suc f) zero n h k = ground arith
digits_fuel (suc f) (suc g) n h k =
    ground (arith, digits_fuel f g (n / 10) (omega arith) (omega arith))

-- The fuel is enough: a number is printed as its tenth and its last digit.
pub decimal_step :
    (n : ℕ) → decimal n ≡ (if ltb n 10 then digit n else decimal (n / 10) ++ digit (n % 10))
unfolding decimal digits
decimal_step zero = refl
decimal_step (suc n) =
    ground (arith, digits_fuel n (suc n / 10) (suc n / 10) (omega arith) (omega arith))
