-- ===== src/Base/Words.antt =====
-- Machine words: the arithmetic of `u64` and `u32` that the program uses.
use Prim.Native.Nat.{ℕ, ◌+◌, ◌-◌, ◌^◌, min}
use mathlib.Core.Path.{◌≡◌}
use native.Mathlib.Omega.{arith}

abbrev pub u64_max : ℕ
u64_max = 2 ^ 64 - 1

-- `u64::saturating_add` and `u64::saturating_sub`
abbrev pub saturating_add : ℕ → ℕ → ℕ
saturating_add a b = min (a + b) u64_max

abbrev pub saturating_sub : ℕ → ℕ → ℕ
saturating_sub a b = a - b

pub saturating_add_assoc :
    (a b c : ℕ) → saturating_add (saturating_add a b) c ≡ saturating_add a (saturating_add b c)
saturating_add_assoc a b c = omega arith

pub saturating_add_comm : (a b : ℕ) → saturating_add a b ≡ saturating_add b a
saturating_add_comm a b = omega arith
