-- ===== src/Prelude/Words.antt =====
-- Machine integers: the numbers that an `int`, an `int64` and a `size_t` hold, with the wrap-around of
-- a conversion. Signed overflow, which C++ leaves undefined, wraps too.
use Prim.Native.Nat.{ℕ, ◌-◌, ◌%◌, ◌<◌, ◌^◌}
use mathlib.Core.Path.{◌≡◌, refl}
use native.Mathlib.Omega.{arith}
use ngraph.Prelude.Tests.{ltb, if◌then◌else◌}
use ngraph.Prelude.Int.{ℤ, pos, negsuc}

-- the signed number of a word of 32 bits
abbrev signed32 : ℕ → ℤ
signed32 n = if ltb n (2 ^ 31) then pos n else negsuc (2 ^ 32 - 1 - n)

unfoldable pub to_int : ℤ → ℤ
to_int (pos n) = signed32 (n % 2 ^ 32)
to_int (negsuc n) = signed32 (2 ^ 32 - 1 - n % 2 ^ 32)

-- the signed number of a word of 64 bits
abbrev signed64 : ℕ → ℤ
signed64 n = if ltb n (2 ^ 63) then pos n else negsuc (2 ^ 64 - 1 - n)

unfoldable pub to_int64 : ℤ → ℤ
to_int64 (pos n) = signed64 (n % 2 ^ 64)
to_int64 (negsuc n) = signed64 (2 ^ 64 - 1 - n % 2 ^ 64)

unfoldable pub to_size_t : ℤ → ℕ
to_size_t (pos n) = n % 2 ^ 64
to_size_t (negsuc n) = 2 ^ 64 - 1 - n % 2 ^ 64

-- a number that an `int` holds
abbrev pub IsInt : ℤ → Type 0
IsInt a = to_int a ≡ a

-- an `int` below 0 is a `size_t` above each `int`
pub to_size_t-int : (a : ℤ) (d : ℕ) → IsInt a → d < 2 ^ 31 → to_size_t a ≡ d → a ≡ pos d
unfolding to_int to_size_t
to_size_t-int (pos n) d i h e = ground arith
to_size_t-int (negsuc n) d i h e = ground arith

pub zero-IsInt : IsInt (pos 0)
unfolding to_int
zero-IsInt = refl
