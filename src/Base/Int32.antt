-- ===== src/Base/Int32.antt =====
-- `i32` as its 32-bit pattern, a number below 2 ^ 32: a release build wraps on overflow. The order
-- is the signed one, by the pattern with its sign bit flipped.
use intent_rebase.Base.Tests.{leb, if◌then◌else◌}
use Prim.Native.Nat.{ℕ, ◌+◌, ◌-◌, ◌%◌, ◌≤◌, ◌<◌}
use mathlib.Core.Path.{◌≡◌}
use mathlib.Core.Logic.{◌↔◌}
use mathlib.Core.Bool.{Bool, true}
use native.Mathlib.Omega.{arith}

abbrev pub modulus : ℕ
modulus = 4294967296

abbrev pub sign : ℕ
sign = 2147483648

-- `n + 1`.
abbrev pub succ : ℕ → ℕ
succ n = (n + 1) % modulus

-- `a - b`.
abbrev pub sub : ℕ → ℕ → ℕ
sub a b = (a + modulus - b) % modulus

-- `a >= b`.
abbrev pub geb : ℕ → ℕ → Bool
geb a b = leb ((b + sign) % modulus) ((a + sign) % modulus)

-- `n.max(0)`.
abbrev pub max_zero : ℕ → ℕ
max_zero n = if geb n 0 then n else 0

-- Below the sign bit the order is that of the numbers.
pub geb_iff : (a b : ℕ) → a < sign → b < sign → (geb a b ≡ true) ↔ (b ≤ a)
geb_iff a b ha hb = ground arith
