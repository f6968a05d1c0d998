-- ===== src/Sha/Schedule.antt =====
-- The data expansion of sha_hash of src/sha.c is the schedule of the standard.
use Prim.Native.Nat.{bit_xor}
use mathlib.Core.List.{reverse-cons}
use jabberoo.Base.{
  Str, ℕ, zero, suc, ◌+◌, ◌-◌, ◌<◌, ◌≤◌, List, [], ◌∷◌, ◌++◌, map, reverse, ◌≡◌, refl, sym, ap,
  subst, ◌∙◌, length, length-append, All, arith,
}
use jabberoo.Sha.{word_mod, nth, expand, words_of, switch_endianness, rol1}
use jabberoo.Sha.Standard.{big_endian, next_word, schedule}
use jabberoo.Sha.Words.{rotl, rol1-rotl, rotl-lt, bit_xor-lt, switch_endianness_lem}

abbrev pub IsByte : ℕ → Type 0
IsByte b = b < 256

abbrev pub IsWord : ℕ → Type 0
IsWord w = w < word_mod

-- The words of a block, turned around, are its words with the high byte first.
pub switched_words : (s : Str) → All IsByte s → map switch_endianness (words_of s) ≡ big_endian s
unfolding words_of big_endian
switched_words [] h = refl
switched_words (b0 ∷ []) h = refl
switched_words (b0 ∷ b1 ∷ []) h = refl
switched_words (b0 ∷ b1 ∷ b2 ∷ []) h = refl
switched_words (b0 ∷ b1 ∷ b2 ∷ b3 ∷ s) (h0, (h1, (h2, (h3, h)))) =
    λ i. switch_endianness_lem b0 b1 b2 b3 h0 h1 h2 h3 i ∷ switched_words s h i

pub big_endian-IsWord : (s : Str) → All IsByte s → All IsWord (big_endian s)
unfolding big_endian
big_endian-IsWord [] h = tt
big_endian-IsWord (b0 ∷ []) h = tt
big_endian-IsWord (b0 ∷ b1 ∷ []) h = tt
big_endian-IsWord (b0 ∷ b1 ∷ b2 ∷ []) h = tt
big_endian-IsWord (b0 ∷ b1 ∷ b2 ∷ b3 ∷ s) (h0, (h1, (h2, (h3, h)))) =
    (omega arith, big_endian-IsWord s h)

-- The element of a list that is not behind the end of a prefix.
nth-append : (n : ℕ) (xs ys : List ℕ) → n < length xs → nth n (xs ++ ys) ≡ nth n xs
nth-append n [] ys h = absurd (omega arith)
nth-append zero (x ∷ xs) ys h = refl
nth-append (suc n) (x ∷ xs) ys h = nth-append n xs ys (omega arith)

nth-last : (n : ℕ) (xs : List ℕ) (y : ℕ) → n ≡ length xs → nth n (xs ++ y ∷ []) ≡ y
nth-last zero [] y h = refl
nth-last (suc n) [] y h = absurd (omega arith)
nth-last zero (x ∷ xs) y h = absurd (omega arith)
nth-last (suc n) (x ∷ xs) y h = nth-last n xs y (omega arith)

pub length-reverse : (v : List ℕ) → length (reverse v) ≡ length v
length-reverse [] = refl
length-reverse (x ∷ v) =
    ap length (reverse-cons x v)
    ∙ omega (arith, length-append (reverse v) (x ∷ []), length-reverse v)

-- What stands i places from the end.
nth-reverse : (i j : ℕ) (v : List ℕ) → i + j + 1 ≡ length v → nth j (reverse v) ≡ nth i v
nth-reverse i j [] h = absurd (omega arith)
nth-reverse zero j (x ∷ v) h =
    ap (nth j) (reverse-cons x v) ∙ nth-last j (reverse v) x (omega (arith, length-reverse v))
nth-reverse (suc i) j (x ∷ v) h =
    ap (nth j) (reverse-cons x v)
    ∙ nth-append j (reverse v) (x ∷ []) (omega (arith, length-reverse v))
    ∙ nth-reverse i j v (omega arith)

nth-IsWord : (i : ℕ) (v : List ℕ) → All IsWord v → nth i v < word_mod
nth-IsWord i [] h = omega arith
nth-IsWord zero (x ∷ v) h = h.0
nth-IsWord (suc i) (x ∷ v) h = nth-IsWord i v h.1

-- The word that the loop makes next, of the words so far, newest first.
abbrev next_of : List ℕ → ℕ
next_of v = bit_xor (bit_xor (bit_xor (nth 2 v) (nth 7 v)) (nth 13 v)) (nth 15 v)

next_of-lt : (v : List ℕ) → All IsWord v → next_of v < word_mod
next_of-lt v h =
    bit_xor-lt 32 _ _
      (bit_xor-lt 32 _ _ (bit_xor-lt 32 _ _ (nth-IsWord 2 v h) (nth-IsWord 7 v h))
        (nth-IsWord 13 v h))
      (nth-IsWord 15 v h)

-- It is the next word of the schedule.
next_of_lem : (v : List ℕ) → All IsWord v → 16 ≤ length v → rol1 (next_of v) ≡ next_word (reverse v)
next_of_lem v h long =
    let t = length (reverse v) in
    let at = λ (k : ℕ) (j : ℕ) (e : k + j + 1 ≡ length v). sym (nth-reverse k j v e) in
    let same = length-reverse v in
    rol1-rotl (next_of v) (next_of-lt v h) ∙ (λ i. rotl 1 (
      bit_xor
        (bit_xor (bit_xor (at 2 (t - 3) (omega arith) i) (at 7 (t - 8) (omega arith) i))
          (at 13 (t - 14) (omega arith) i))
        (at 15 (t - 16) (omega arith) i)))

pub expand_lem :
    (n : ℕ) (v : List ℕ)
    → All IsWord v
    → 16 ≤ length v
    → reverse (expand n v) ≡ schedule n (reverse v)
unfolding expand schedule
expand_lem zero v h long = refl
expand_lem (suc n) v h long =
    let x = rol1 (next_of v) in
    let small =
      subst (λ y. y < word_mod) (sym (rol1-rotl (next_of v) (next_of-lt v h)))
        (rotl-lt (next_of v) (next_of-lt v h)).0 in
    expand_lem n (x ∷ v) (small, h) (omega arith)
    ∙ ap (schedule n) (reverse-cons x v ∙ ap (λ y. reverse v ++ y ∷ []) (next_of_lem v h long))
