-- ===== src/Base/Bits.antt =====
-- The bit operations of the native numbers, digit by digit: masks and shifts as remainders and
-- quotients, and the union of parts that do not overlap.
use Prim.Native.Nat.{
  ℕ, zero, suc, ◌+◌, ◌-◌, ◌*◌, ◌/◌, ◌%◌, ◌^◌, ◌≤◌, ◌<◌, min, max, digits, bitwise, differ, bit_and,
  bit_or, bit_xor, bit_and-bitwise, bit_or-bitwise, bit_xor-bitwise,
}
use mathlib.Core.Path.{◌≡◌, refl, ◌∙◌, ap}
use native.Mathlib.Nat.{pow-suc}
use native.Mathlib.Omega.{arith}

-- A bit operation by its value `f` at 0 and its table `g`.
module _ (f : ℕ → ℕ) (g : ℕ → ℕ → ℕ) where
  -- Any fuel from the number on gives the same.
  fuel_enough :
      (fuel more a b : ℕ) → a ≤ fuel → a ≤ more → digits f g fuel a b ≡ digits f g more a b
  fuel_enough zero zero zero b h k = refl
  fuel_enough zero (suc m) zero b h k = refl
  fuel_enough (suc n) zero zero b h k = refl
  fuel_enough (suc n) (suc m) zero b h k = refl
  fuel_enough zero m (suc a) b h k = absurd (omega arith)
  fuel_enough (suc n) zero (suc a) b h k = absurd (omega arith)
  fuel_enough (suc n) (suc m) (suc a) b h k =
      omega (arith, fuel_enough n m (suc a / 2) (b / 2) (omega arith) (omega arith))

  -- The lowest digit, and the operation on the rest.
  lowest_digit :
      ((b : ℕ) → f b ≡ f (b / 2) * 2 + g 0 (b % 2))
      → (a b : ℕ) → bitwise f g a b ≡ bitwise f g (a / 2) (b / 2) * 2 + g (a % 2) (b % 2)
  lowest_digit at_zero zero b = at_zero b
  lowest_digit at_zero (suc a) b =
      omega (arith, fuel_enough a (suc a / 2) (suc a / 2) (b / 2) (omega arith) (omega arith))

pub and_digit : (a b : ℕ) → bit_and a b ≡ bit_and (a / 2) (b / 2) * 2 + min (a % 2) (b % 2)
and_digit a b = omega (
  arith,
  bit_and-bitwise a b,
  bit_and-bitwise (a / 2) (b / 2),
  lowest_digit (λ b. zero) min (λ b. omega arith) a b,
)

pub or_digit : (a b : ℕ) → bit_or a b ≡ bit_or (a / 2) (b / 2) * 2 + max (a % 2) (b % 2)
or_digit a b = omega (
  arith,
  bit_or-bitwise a b,
  bit_or-bitwise (a / 2) (b / 2),
  lowest_digit (λ b. b) max (λ b. omega arith) a b,
)

pub xor_digit : (a b : ℕ) → bit_xor a b ≡ bit_xor (a / 2) (b / 2) * 2 + differ (a % 2) (b % 2)
xor_digit a b = omega (
  arith,
  bit_xor-bitwise a b,
  bit_xor-bitwise (a / 2) (b / 2),
  lowest_digit (λ b. b) differ (λ b. omega arith) a b,
)

-- The mask of one more one.
mask_halves : (k : ℕ) → ((2 ^ suc k - 1) / 2 ≡ 2 ^ k - 1) × ((2 ^ suc k - 1) % 2 ≡ 1) × (1 ≤ 2 ^ k)
mask_halves zero = (refl, refl, omega arith)
mask_halves (suc k) =
    let half = (mask_halves k).2 in
    (
      omega (arith, pow-suc 2 (suc k), pow-suc 2 k),
      omega (arith, pow-suc 2 (suc k), pow-suc 2 k),
      omega (arith, pow-suc 2 k),
    )

-- A number that fits under the mask of k ones is left as it is.
pub and_fits : (k a : ℕ) → a < 2 ^ k → bit_and a (2 ^ k - 1) ≡ a
and_fits zero zero h = bit_and-bitwise 0 0
and_fits zero (suc a) h = absurd (omega arith)
and_fits (suc k) a h =
    let (halved, odd, one) = mask_halves k in
    and_digit a (2 ^ suc k - 1)
    ∙ rw (halved, odd, and_fits k (a / 2) (omega (arith, pow-suc 2 k))) (omega arith)

and_zero_upto : (n a : ℕ) → a ≤ n → bit_and a 0 ≡ 0
and_zero_upto n zero h = bit_and-bitwise 0 0
and_zero_upto zero (suc a) h = absurd (omega arith)
and_zero_upto (suc n) (suc a) h =
    and_digit (suc a) 0 ∙ rw (and_zero_upto n (suc a / 2) (omega arith)) (omega arith)

pub and_zero : (a : ℕ) → bit_and a 0 ≡ 0
and_zero a = and_zero_upto a a (omega arith)

-- A product with one more factor 2.
double : (h k : ℕ) → h * 2 ^ suc k ≡ 2 * (h * 2 ^ k)
double h k = grind (arith, pow-suc 2 k)

halves :
    (k h l : ℕ) → ((h * 2 ^ suc k + l) / 2 ≡ h * 2 ^ k + l / 2) × ((h * 2 ^ suc k + l) % 2 ≡ l % 2)
halves k h l = (omega (arith, double h k), omega (arith, double h k))

evens : (k h : ℕ) → ((h * 2 ^ suc k) / 2 ≡ h * 2 ^ k) × ((h * 2 ^ suc k) % 2 ≡ 0)
evens k h = (omega (arith, double h k), omega (arith, double h k))

-- The low part under the mask of k ones.
pub and_low : (k h l : ℕ) → l < 2 ^ k → bit_and (h * 2 ^ k + l) (2 ^ k - 1) ≡ l
and_low zero h zero lt = and_zero (h * 2 ^ 0 + 0)
and_low zero h (suc l) lt = absurd (omega arith)
and_low (suc k) h l lt =
    let (half, odd, one) = mask_halves k in
    let (number, digit) = halves k h l in
    and_digit (h * 2 ^ suc k + l) (2 ^ suc k - 1)
    ∙ rw (half, odd, number, digit, and_low k h (l / 2) (omega (arith, pow-suc 2 k))) (omega arith)

-- A mask that stands k digits up takes the part above.
pub and_above :
    (k h l m : ℕ) → l < 2 ^ k → bit_and (h * 2 ^ k + l) (m * 2 ^ k) ≡ bit_and h m * 2 ^ k
and_above zero h zero m lt =
    let plain : (x : ℕ) → x * 2 ^ 0 ≡ x = λ x. omega arith in
    rw (plain h, plain m, plain (bit_and h m)) (ap (λ x. bit_and x m) (omega arith))
and_above zero h (suc l) m lt = absurd (omega arith)
and_above (suc k) h l m lt =
    let (number, digit) = halves k h l in
    let (mask, even) = evens k m in
    and_digit (h * 2 ^ suc k + l) (m * 2 ^ suc k)
    ∙ rw (number, digit, mask, even, and_above k h (l / 2) m (omega (arith, pow-suc 2 k)))
        (omega (arith, double (bit_and h m) k))

or_zero_upto : (n a : ℕ) → a ≤ n → bit_or a 0 ≡ a
or_zero_upto n zero h = bit_or-bitwise 0 0
or_zero_upto zero (suc a) h = absurd (omega arith)
or_zero_upto (suc n) (suc a) h =
    or_digit (suc a) 0 ∙ rw (or_zero_upto n (suc a / 2) (omega arith)) (omega arith)

pub or_zero : (a : ℕ) → bit_or a 0 ≡ a
or_zero a = or_zero_upto a a (omega arith)

-- Parts that do not overlap.
pub or_disjoint : (k h l : ℕ) → l < 2 ^ k → bit_or (h * 2 ^ k) l ≡ h * 2 ^ k + l
or_disjoint zero h zero lt = or_zero (h * 2 ^ 0) ∙ omega arith
or_disjoint zero h (suc l) lt = absurd (omega arith)
or_disjoint (suc k) h l lt =
    let (number, even) = evens k h in
    or_digit (h * 2 ^ suc k) l
    ∙ rw (number, even, or_disjoint k h (l / 2) (omega (arith, pow-suc 2 k)))
        (omega (arith, double h k))
