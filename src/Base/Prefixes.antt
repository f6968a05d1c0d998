-- ===== src/Base/Prefixes.antt =====
-- The first elements of a list, by their number.
use jabberoo.Base.{
  Str, [], ◌∷◌, ◌++◌, ℕ, zero, suc, ◌≡◌, refl, ap, ◌∙◌, ◌≤◌, ◌<◌, ◌+◌, arith, length, take, drop,
}

pub take_add : (n m : ℕ) (xs : Str) → take (n + m) xs ≡ take n xs ++ take m (drop n xs)
take_add zero m xs = let same : 0 + m ≡ m = omega arith in ap (λ k. take k xs) same
take_add (suc n) zero [] =
    let same : suc n + 0 ≡ suc n = omega arith in ap (λ k. take {A = ℕ} k []) same
take_add (suc n) (suc m) [] =
    let same : suc n + suc m ≡ suc (n + suc m) = omega arith in ap (λ k. take {A = ℕ} k []) same
take_add (suc n) m (x ∷ xs) =
    let same : suc n + m ≡ suc (n + m) = omega arith in
    ap (λ k. take k (x ∷ xs)) same ∙ ap (λ l. x ∷ l) (take_add n m xs)

pub short_take : (n : ℕ) (xs : Str) → length (take n xs) < n → take n xs ≡ xs
short_take zero xs h = absurd (omega arith)
short_take (suc n) [] h = refl
short_take (suc n) (x ∷ xs) h = ap (λ l. x ∷ l) (short_take n xs (omega arith))

pub length-take-le : (n : ℕ) (xs : Str) → length (take n xs) ≤ length xs
length-take-le zero xs = omega arith
length-take-le (suc n) [] = omega arith
length-take-le (suc n) (x ∷ xs) = omega (arith, length-take-le n xs)

pub nothing_left : (xs : Str) → length xs ≡ 0 → xs ≡ []
nothing_left [] h = refl
nothing_left (x ∷ xs) h = absurd (omega arith)
