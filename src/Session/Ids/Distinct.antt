-- ===== src/Session/Ids/Distinct.antt =====
-- Which ids of Session::getNextID of src/jabberoo-session.cc are different.
use jabberoo.Base.{
  Str, ℕ, zero, suc, ◌+◌, ◌/◌, ◌%◌, ◌^◌, ◌<◌, ◌≤◌, [], ◌∷◌, ◌≡◌, arith, take, drop, length, ltb,
  sym, ◌∙◌, ap, take_of_length-le, Bool-cases, inl, inr,
}
use jabberoo.Base.Int.{digits_value}
use mathlib.Core.Logic.{◌≢◌}
use native.Mathlib.Nat.{pow-suc}
use jabberoo.Session.Ids.{write_digits, decimal, id_text}

-- Reading the digits gives back the number, and goes on behind it.
digits_value-write_digits :
    (f n : ℕ) (out : Str) → n < f → digits_value 0 (write_digits f n out) ≡ digits_value n out
unfolding digits_value write_digits
digits_value-write_digits zero n out h = absurd (omega arith)
digits_value-write_digits (suc f) n out h = elim (Bool-cases (ltb n 10)) [
  | inl small ↦ rw (small, write_digits) (ground arith)
  | inr large ↦
      rw (large, write_digits)
        (digits_value-write_digits f (n / 10) ((b'0' + n % 10) ∷ out) (ground arith) ∙ ground arith)
]

digits_value-decimal : (n : ℕ) → digits_value 0 (decimal n) ≡ n
unfolding decimal digits_value
digits_value-decimal n = digits_value-write_digits (suc n) n [] (omega arith)

length-write_digits-le :
    (k f n : ℕ) (out : Str)
    → n < f
    → n < 10 ^ suc k
    → length (write_digits f n out) ≤ suc k + length out
unfolding write_digits
length-write_digits-le k zero n out h b = absurd (omega arith)
length-write_digits-le zero (suc f) n out h b = ground arith
length-write_digits-le (suc k) (suc f) n out h b = elim (Bool-cases (ltb n 10)) [
  | inl small ↦ rw (small, write_digits) (omega arith)
  | inr large ↦
      rw (large, write_digits)
        (omega (
          arith,
          length-write_digits-le k f (n / 10) ((b'0' + n % 10) ∷ out) (ground arith)
              (smaller k n b),
        ))
]
  where
    smaller : (k n : ℕ) → n < 10 ^ suc (suc k) → n / 10 < 10 ^ suc k
    smaller k n b = omega (arith, pow-suc 10 (suc k))

decimal-whole : (n : ℕ) → n < 1000000 → take 7 (b'j' ∷ decimal n) ≡ b'j' ∷ decimal n
unfolding decimal
decimal-whole n h =
    take_of_length-le 7 (b'j' ∷ decimal n)
      (omega (arith, length-write_digits-le 5 (suc n) n [] (omega arith) h))

id_text-whole : (n : ℕ) → n < 1000000 → id_text n ≡ b'j' ∷ decimal n
unfolding id_text
id_text-whole n h = decimal-whole n h

id_text-injective : (n m : ℕ) → n < 1000000 → m < 1000000 → id_text n ≡ id_text m → n ≡ m
id_text-injective n m h k e =
    sym (digits_value-decimal n)
    ∙ ap (λ s. digits_value 0 (drop 1 s)) (sym (id_text-whole n h) ∙ e ∙ id_text-whole m k)
    ∙ digits_value-decimal m

-- The ids of two different counters below a million are different.
pub id_text-distinct : (n m : ℕ) → n < 1000000 → m < 1000000 → n ≢ m → id_text n ≢ id_text m
id_text-distinct n m h k other e = other (id_text-injective n m h k e)
