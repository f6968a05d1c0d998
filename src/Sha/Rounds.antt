-- ===== src/Sha/Rounds.antt =====
-- The four loops of sha_hash of src/sha.c are the eighty rounds of the standard.
use native.Mathlib.Omega.{arith}
use jabberoo.Base.{ℕ, suc, ◌+◌, ◌%◌, ◌<◌, ◌≤◌, List, [], ◌∷◌, ◌++◌, ◌≡◌, refl, sym, ap, ◌∙◌, length}
use jabberoo.Sha.{Hash, word_mod, round, rounds, f1, f2, f3, k1, k2, k3, k4}
use jabberoo.Sha.Standard.{
  choose, parity, majority, function_of, constant_of, standard_round, standard_rounds,
}
use jabberoo.Sha.Words.{rol5-rotl, rol30-rotl, rotl-lt}

-- The variables are words.
abbrev pub IsHash : Hash → Type 0
IsHash s =
    (s.a < word_mod) × (s.b < word_mod) × (s.c < word_mod) × (s.d < word_mod) × (s.e < word_mod)

standard_round-IsHash : (t w : ℕ) (s : Hash) → IsHash s → IsHash (standard_round t w s)
unfolding standard_round
standard_round-IsHash t w s (ha, hb, hc, hd, he) = (omega arith, ha, (rotl-lt s.b hb).1, hc, hd)

round_lem :
    (f : ℕ → ℕ → ℕ → ℕ) (k t w : ℕ) (s : Hash)
    → f ≡ function_of t
    → k ≡ constant_of t
    → IsHash s
    → round f k w s ≡ standard_round t w s
unfolding round standard_round
round_lem f k t w s same_f same_k (ha, hb, hc, hd, he) = λ i. record {
  a = (rol5-rotl s.a ha i + same_f i s.b s.c s.d + s.e + w + same_k i) % word_mod;
  b = s.a;
  c = rol30-rotl s.b hb i;
  d = s.c;
  e = s.d;
}

-- The rounds of one loop, whose numbers stay below `stop`.
rounds_lem :
    (f : ℕ → ℕ → ℕ → ℕ) (k stop : ℕ)
    → (lo : ℕ) → ((t : ℕ) → lo ≤ t → t < stop → (f ≡ function_of t) × (k ≡ constant_of t))
    → (t : ℕ) (ws : List ℕ) (s : Hash) → lo ≤ t
    → t + length ws ≤ stop
    → IsHash s
    → (rounds f k ws s ≡ standard_rounds t ws s) × IsHash (standard_rounds t ws s)
unfolding rounds standard_rounds
rounds_lem f k stop lo same t [] s low high w = (refl, w)
rounds_lem f k stop lo same t (x ∷ ws) s low high w =
    let (same_f, same_k) = same t low (omega arith) in
    let step = round_lem f k t x s same_f same_k w in
    let rest =
      rounds_lem f k stop lo same (suc t) ws (standard_round t x s) (omega arith) (omega arith)
        (standard_round-IsHash t x s w) in
    (ap (rounds f k ws) step ∙ rest.0, rest.1)

standard_rounds-append :
    (t : ℕ) (xs ys : List ℕ) (s : Hash)
    → standard_rounds t (xs ++ ys) s ≡ standard_rounds (t + length xs) ys (standard_rounds t xs s)
unfolding standard_rounds
standard_rounds-append t [] ys s = ap (λ u. standard_rounds u ys s) (omega arith)
standard_rounds-append t (x ∷ xs) ys s =
    standard_rounds-append (suc t) xs ys (standard_round t x s)
    ∙ ap (λ u. standard_rounds u ys (standard_rounds (suc t) xs (standard_round t x s)))
        (omega arith)

first_loop : (t : ℕ) → 0 ≤ t → t < 20 → (f1 ≡ function_of t) × (k1 ≡ constant_of t)
unfolding f1 choose function_of constant_of
first_loop t h k = ground arith

second_loop : (t : ℕ) → 20 ≤ t → t < 40 → (f2 ≡ function_of t) × (k2 ≡ constant_of t)
unfolding f2 parity function_of constant_of
second_loop t h k = ground arith

third_loop : (t : ℕ) → 40 ≤ t → t < 60 → (f3 ≡ function_of t) × (k3 ≡ constant_of t)
unfolding f3 majority function_of constant_of
third_loop t h k = ground arith

fourth_loop : (t : ℕ) → 60 ≤ t → t < 80 → (f2 ≡ function_of t) × (k4 ≡ constant_of t)
unfolding f2 parity function_of constant_of
fourth_loop t h k = ground arith

-- The rounds behind a part, by the number that the part ends at.
standard_rounds_behind :
    (t u : ℕ) (xs ys : List ℕ) (s : Hash)
    → t + length xs ≡ u
    → standard_rounds t (xs ++ ys) s ≡ standard_rounds u ys (standard_rounds t xs s)
standard_rounds_behind t u xs ys s e =
    standard_rounds-append t xs ys s ∙ ap (λ v. standard_rounds v ys (standard_rounds t xs s)) e

-- The four loops, over the parts of the eighty words.
pub four_loops :
    (w1 w2 w3 w4 : List ℕ) (s : Hash)
    → length w1 ≡ 20
    → length w2 ≡ 20
    → length w3 ≡ 20
    → length w4 ≡ 20
    → IsHash s
    → rounds f2 k4 w4 (rounds f3 k3 w3 (rounds f2 k2 w2 (rounds f1 k1 w1 s)))
      ≡ standard_rounds 0 (w1 ++ (w2 ++ (w3 ++ w4))) s
four_loops w1 w2 w3 w4 s l1 l2 l3 l4 h =
    let r1 = rounds_lem f1 k1 20 0 first_loop 0 w1 s (omega arith) (omega arith) h in
    let s1 = standard_rounds 0 w1 s in
    let r2 = rounds_lem f2 k2 40 20 second_loop 20 w2 s1 (omega arith) (omega arith) r1.1 in
    let s2 = standard_rounds 20 w2 s1 in
    let r3 = rounds_lem f3 k3 60 40 third_loop 40 w3 s2 (omega arith) (omega arith) r2.1 in
    let s3 = standard_rounds 40 w3 s2 in
    let r4 = rounds_lem f2 k4 80 60 fourth_loop 60 w4 s3 (omega arith) (omega arith) r3.1 in
    ap (λ u. rounds f2 k4 w4 (rounds f3 k3 w3 (rounds f2 k2 w2 u))) r1.0
    ∙ ap (λ u. rounds f2 k4 w4 (rounds f3 k3 w3 u)) r2.0
    ∙ ap (rounds f2 k4 w4) r3.0
    ∙ r4.0
    ∙ sym (
        standard_rounds_behind 0 20 w1 (w2 ++ (w3 ++ w4)) s (omega arith)
        ∙ standard_rounds_behind 20 40 w2 (w3 ++ w4) s1 (omega arith)
        ∙ standard_rounds_behind 40 60 w3 w4 s2 (omega arith))
