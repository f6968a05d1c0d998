-- ===== src/Sha/Words.antt =====
-- The word operations of src/sha.c: the rotations, the change of byte order, and the bounds.
use Prim.Native.Nat.{bit_and, bit_or, bit_xor, differ}
use native.Mathlib.Nat.{pow-suc}
use jabberoo.Base.{ℕ, zero, suc, ◌+◌, ◌-◌, ◌*◌, ◌/◌, ◌%◌, ◌^◌, ◌<◌, ◌≡◌, refl, arith, ◌∙◌, ap}
use jabberoo.Base.Bits.{and_fits, and_low, and_above, or_disjoint, xor_digit}
use jabberoo.Sha.{word_mod, rol1, rol5, rol30, shl, shr, switch_endianness}

-- The circular shift left of the standard.
abbrev pub rotl : ℕ → ℕ → ℕ
rotl k x = x * 2 ^ k % word_mod + x / 2 ^ (32 - k)

-- A shift left keeps the low part.
pub rol1-rotl : (x : ℕ) → x < word_mod → rol1 x ≡ rotl 1 x
unfolding rol1 shl
rol1-rotl x h =
    let up : x * 2 ^ 1 % word_mod ≡ x % 2 ^ 31 * 2 ^ 1 = omega arith in
    rw
      (and_fits 1 (shr x 31) (omega arith), up, or_disjoint 1 (x % 2 ^ 31) (shr x 31) (omega arith))
      refl

pub rol5-rotl : (x : ℕ) → x < word_mod → rol5 x ≡ rotl 5 x
unfolding rol5 shl
rol5-rotl x h =
    let up : x * 2 ^ 5 % word_mod ≡ x % 2 ^ 27 * 2 ^ 5 = omega arith in
    rw
      (and_fits 5 (shr x 27) (omega arith), up, or_disjoint 5 (x % 2 ^ 27) (shr x 27) (omega arith))
      refl

pub rol30-rotl : (x : ℕ) → x < word_mod → rol30 x ≡ rotl 30 x
unfolding rol30 shl
rol30-rotl x h =
    let up : x * 2 ^ 30 % word_mod ≡ x % 2 ^ 2 * 2 ^ 30 = omega arith in
    rw (and_fits 30 (shr x 2) (omega arith), up, or_disjoint 30 (x % 2 ^ 2) (shr x 2) (omega arith))
      refl

pub rotl-lt : (x : ℕ) → x < word_mod → (rotl 1 x < word_mod) × (rotl 30 x < word_mod)
rotl-lt x h = (omega arith, omega arith)

differ_digit : (x y : ℕ) → x < 2 → y < 2 → differ x y < 2
differ_digit zero y h k = k
differ_digit (suc zero) zero h k = h
differ_digit (suc zero) (suc zero) h k = omega arith
differ_digit (suc zero) (suc (suc y)) h k = absurd (omega arith)
differ_digit (suc (suc x)) y h k = absurd (omega arith)

pub bit_xor-lt : (k a b : ℕ) → a < 2 ^ k → b < 2 ^ k → bit_xor a b < 2 ^ k
bit_xor-lt zero zero zero h l = h
bit_xor-lt zero (suc a) b h l = absurd (omega arith)
bit_xor-lt zero zero (suc b) h l = absurd (omega arith)
bit_xor-lt (suc k) a b h l = omega (
  arith,
  xor_digit a b,
  pow-suc 2 k,
  differ_digit (a % 2) (b % 2) (omega arith) (omega arith),
  bit_xor-lt k (a / 2) (b / 2) (omega (arith, pow-suc 2 k)) (omega (arith, pow-suc 2 k)),
)

-- Four bytes that were read the low one first, turned around.
pub switch_endianness_lem :
    (b0 b1 b2 b3 : ℕ)
    → b0 < 256
    → b1 < 256
    → b2 < 256
    → b3 < 256
    → switch_endianness (b0 + b1 * 2 ^ 8 + b2 * 2 ^ 16 + b3 * 2 ^ 24)
      ≡ b0 * 2 ^ 24 + b1 * 2 ^ 16 + b2 * 2 ^ 8 + b3
unfolding switch_endianness shl
switch_endianness_lem b0 b1 b2 b3 h0 h1 h2 h3 =
    let x = b0 + b1 * 2 ^ 8 + b2 * 2 ^ 16 + b3 * 2 ^ 24 in
    let p0 : shl x 24 ≡ b0 * 2 ^ 24 + 0 = omega arith in
    let p1 : shl x 8 ≡ (b2 * 2 ^ 8 + b1) * 2 ^ 16 + b0 * 2 ^ 8 = omega arith in
    let p2 : shr x 8 ≡ (b3 * 2 ^ 8 + b2) * 2 ^ 8 + b1 = omega arith in
    let p3 : shr x 24 ≡ 0 * 2 ^ 8 + b3 = omega arith in
    let m0 : bit_and (shl x 24) 0xff000000 ≡ b0 * 2 ^ 24 =
      ap (λ y. bit_and y 0xff000000) p0
      ∙ and_above 24 b0 0 255 (omega arith)
      ∙ ap (λ y. y * 2 ^ 24) (and_fits 8 b0 h0) in
    let m1 : bit_and (shl x 8) 0x00ff0000 ≡ b1 * 2 ^ 16 =
      ap (λ y. bit_and y 0x00ff0000) p1
      ∙ and_above 16 (b2 * 2 ^ 8 + b1) (b0 * 2 ^ 8) 255 (omega arith)
      ∙ ap (λ y. y * 2 ^ 16) (and_low 8 b2 b1 h1) in
    let m2 : bit_and (shr x 8) 0x0000ff00 ≡ b2 * 2 ^ 8 =
      ap (λ y. bit_and y 0x0000ff00) p2
      ∙ and_above 8 (b3 * 2 ^ 8 + b2) b1 255 (omega arith)
      ∙ ap (λ y. y * 2 ^ 8) (and_low 8 b3 b2 h2) in
    let m3 : bit_and (shr x 24) 0x000000ff ≡ b3 =
      ap (λ y. bit_and y 0x000000ff) p3 ∙ and_low 8 0 b3 h3 in
    let o1 : bit_or (b0 * 2 ^ 24) (b1 * 2 ^ 16) ≡ (b0 * 2 ^ 8 + b1) * 2 ^ 16 =
      or_disjoint 24 b0 (b1 * 2 ^ 16) (omega arith) ∙ omega arith in
    let o2 : bit_or ((b0 * 2 ^ 8 + b1) * 2 ^ 16) (b2 * 2 ^ 8)
        ≡ (b0 * 2 ^ 16 + b1 * 2 ^ 8 + b2) * 2 ^ 8 =
      or_disjoint 16 (b0 * 2 ^ 8 + b1) (b2 * 2 ^ 8) (omega arith) ∙ omega arith in
    let o3 : bit_or ((b0 * 2 ^ 16 + b1 * 2 ^ 8 + b2) * 2 ^ 8) b3
        ≡ b0 * 2 ^ 24 + b1 * 2 ^ 16 + b2 * 2 ^ 8 + b3 =
      or_disjoint 8 (b0 * 2 ^ 16 + b1 * 2 ^ 8 + b2) b3 (omega arith) ∙ omega arith in
    (λ i. bit_or (bit_or (bit_or (m0 i) (m1 i)) (m2 i)) (m3 i))
    ∙ (λ i. bit_or (bit_or (o1 i) (b2 * 2 ^ 8)) b3)
    ∙ (λ i. bit_or (o2 i) b3)
    ∙ o3
