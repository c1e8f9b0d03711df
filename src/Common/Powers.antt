-- ===== src/Common/Powers.antt =====
-- Doubling.
use Prim.Native.Nat.{ℕ, zero, suc, ◌*◌, ◌^◌, ◌≤◌}
use mathlib.Core.Path.{◌≡◌}
use native.Mathlib.Nat.{pow-suc, pow-zero}
use native.Mathlib.Omega.{arith}

pub double-pow : (d r : ℕ) → d * 2 ^ suc r ≡ d * 2 * 2 ^ r
double-pow d r = grind (arith, pow-suc 2 r)

pub le-mul-pow : (d r : ℕ) → d ≤ d * 2 ^ r
le-mul-pow d zero = grind (arith, pow-zero 2)
le-mul-pow d (suc r) = omega (arith, double-pow d r, le-mul-pow (d * 2) r)
