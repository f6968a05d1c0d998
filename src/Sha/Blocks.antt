-- ===== src/Sha/Blocks.antt =====
-- Parts of strings and of runs of zeros, for the blocks of src/sha.c.
use jabberoo.Base.{
  Str, ℕ, zero, suc, ◌+◌, ◌-◌, ◌≤◌, [], ◌∷◌, ◌++◌, ◌≡◌, refl, ap, ◌∙◌, length, take, drop, arith,
}
use jabberoo.Sha.{zeros}

pub take-append-short : (n : ℕ) (xs ys : Str) → n ≤ length xs → take n (xs ++ ys) ≡ take n xs
take-append-short zero xs ys h = refl
take-append-short (suc n) [] ys h = absurd (omega arith)
take-append-short (suc n) (x ∷ xs) ys h = ap (◌∷◌ x) (take-append-short n xs ys (omega arith))

pub drop-append-short : (n : ℕ) (xs ys : Str) → n ≤ length xs → drop n (xs ++ ys) ≡ drop n xs ++ ys
drop-append-short zero xs ys h = refl
drop-append-short (suc n) [] ys h = absurd (omega arith)
drop-append-short (suc n) (x ∷ xs) ys h = drop-append-short n xs ys (omega arith)

pub take-append-long :
    (n : ℕ) (xs ys : Str) → length xs ≤ n → take n (xs ++ ys) ≡ xs ++ take (n - length xs) ys
take-append-long n [] ys h = ap (λ k. take k ys) (omega arith)
take-append-long zero (x ∷ xs) ys h = absurd (omega arith)
take-append-long (suc n) (x ∷ xs) ys h =
    ap (◌∷◌ x) (take-append-long n xs ys (omega arith) ∙ ap (λ k. xs ++ take k ys) (omega arith))

pub take-zeros : (n m : ℕ) → n ≤ m → take n (zeros m) ≡ zeros n
take-zeros zero m h = refl
take-zeros (suc n) zero h = absurd (omega arith)
take-zeros (suc n) (suc m) h = ap (◌∷◌ 0) (take-zeros n m (omega arith))

pub zeros-append : (n m : ℕ) → zeros n ++ zeros m ≡ zeros (n + m)
zeros-append zero m = ap zeros (omega arith)
zeros-append (suc n) m =
    let one : suc (n + m) ≡ suc n + m = omega arith in ap (◌∷◌ 0) (zeros-append n m) ∙ ap zeros one

pub length-zeros : (n : ℕ) → length (zeros n) ≡ n
length-zeros zero = refl
length-zeros (suc n) = ap suc (length-zeros n)
