-- ===== src/Base/Compare.antt =====
-- What the Boolean tests of numbers say.
use mathlib.Core.Bool.{true, false}
use mathlib.Core.Path.{◌≡◌}
use Prim.Native.Nat.{ℕ, ◌≤◌, ◌<◌}
use native.Mathlib.Omega.{arith}
use jabberoo.Base.Logic.{ltb, nat_eq}

pub lt_of_ltb : (a b : ℕ) → ltb a b ≡ true → a < b
lt_of_ltb a b h = ground arith

pub ge_of_ltb : (a b : ℕ) → ltb a b ≡ false → b ≤ a
ge_of_ltb a b h = ground arith

pub zero_of_nat_eq : (a : ℕ) → nat_eq a 0 ≡ true → a ≡ 0
zero_of_nat_eq a h = ground arith

pub positive_of_nat_eq : (a : ℕ) → nat_eq a 0 ≡ false → 0 < a
positive_of_nat_eq a h = ground arith

pub nat_eq_flip : (a b : ℕ) → nat_eq a b ≡ false → nat_eq b a ≡ false
nat_eq_flip a b h = ground arith
