-- ===== src/Base/Int.antt =====
-- `int` values: integers over the native numbers, their Boolean order, and `atoi`.
use Prim.Native.Nat.{ℕ, ◌+◌, ◌-◌, ◌*◌}
use mathlib.Core.Bool.{Bool, true, false, ◌&&◌, ◌||◌}
use mathlib.Core.List.{[], ◌∷◌}
use mathlib.Core.Logic.{◌↔◌}
use mathlib.Core.Path.{◌≡◌}
use native.Mathlib.Omega.{arith}
use jabberoo.Base.Logic.{nat_eq, leb, if◌then◌else◌}
use jabberoo.Base.Strings.{Str}

-- `negsuc n` is -(n + 1).
pub data ℤ : Type 0 where
  pos : ℕ → ℤ
  negsuc : ℕ → ℤ

unfoldable pub leℤ : ℤ → ℤ → Bool
leℤ (pos a) (pos b) = leb a b
leℤ (pos a) (negsuc b) = false
leℤ (negsuc a) (pos b) = true
leℤ (negsuc a) (negsuc b) = leb b a

unfoldable pub eqℤ : ℤ → ℤ → Bool
eqℤ (pos a) (pos b) = nat_eq a b
eqℤ (pos a) (negsuc b) = false
eqℤ (negsuc a) (pos b) = false
eqℤ (negsuc a) (negsuc b) = nat_eq a b

unfoldable pub negate : ℕ → ℤ
negate n = if nat_eq n 0 then pos 0 else negsuc (n - 1)

abbrev pub is_space : ℕ → Bool
is_space c = nat_eq c 32 || (leb 9 c && leb c 13)

abbrev pub is_digit : ℕ → Bool
is_digit c = leb b'0' c && leb c b'9'

-- The number that the leading digits write, after those already read.
unfoldable pub digits_value : ℕ → Str → ℕ
digits_value acc [] = acc
digits_value acc (c ∷ s) =
    let rest = digits_value (acc * 10 + (c - b'0')) s in if is_digit c then rest else acc

unfoldable pub signed_value : Str → ℤ
unfolding digits_value negate
signed_value [] = pos 0
signed_value (c ∷ s) =
    if nat_eq c b'-'
    then negate (digits_value 0 s)
    else if nat_eq c b'+'
    then pos (digits_value 0 s)
    else pos (digits_value 0 (c ∷ s))

-- White space, a sign, digits; what follows is ignored. Of a text beyond the range of an `int`,
-- where the source is undefined, this is the number itself.
unfoldable pub atoi : Str → ℤ
unfolding signed_value
atoi [] = pos 0
atoi (c ∷ s) = let rest = atoi s in if is_space c then rest else signed_value (c ∷ s)

pub leℤ-trans : (a b c : ℤ) → leℤ a b ≡ true → leℤ b c ≡ true → leℤ a c ≡ true
unfolding leℤ
leℤ-trans a b c h k = ground arith

pub leℤ-total : (a b : ℤ) → leℤ a b ≡ false → leℤ b a ≡ true
unfolding leℤ
leℤ-total a b h = ground arith

pub leℤ_refl : (a : ℤ) → leℤ a a ≡ true
unfolding leℤ
leℤ_refl a = ground arith

pub eqℤ_iff : (a b : ℤ) → (eqℤ a b ≡ true) ↔ (a ≡ b)
unfolding eqℤ
eqℤ_iff a b = ground arith
