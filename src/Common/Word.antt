-- ===== src/Common/Word.antt =====
-- Go's fixed-width integers: 64-bit words with their wrap-around, and the signed results of an
-- `int` function that returns -1 for "nothing there".
use Prim.Native.Nat.{ℕ, ◌+◌, ◌-◌, ◌%◌, ◌^◌}
use mathlib.Core.Path.{◌≡◌}
use native.Mathlib.Omega.{arith}

abbrev pub u16 : ℕ → ℕ
u16 n = n % 2 ^ 16

abbrev pub u32 : ℕ → ℕ
u32 n = n % 2 ^ 32

-- `a + b` on an `int` or a `uint64`, as a bit pattern
abbrev pub add64 : ℕ → ℕ → ℕ
add64 a b = (a + b) % 2 ^ 64

-- `a - b` on an `int` or a `uint64`, as a bit pattern; `-` on ℕ is truncated, so the modulus comes first
abbrev pub sub64 : ℕ → ℕ → ℕ
sub64 a b = (a + 2 ^ 64 - b % 2 ^ 64) % 2 ^ 64

-- `negsuc n` is -(n + 1).
pub data ℤ : Type 0 where
  pos : ℕ → ℤ
  negsuc : ℕ → ℤ

-- Taking away the last summand of a sum gives the sum without it, also where it wraps.
pub sub64-add : (a b : ℕ) → sub64 ((b + a) % 2 ^ 64) b ≡ a % 2 ^ 64
sub64-add a b = omega arith
