-- ===== src/Sha/Compress.antt =====
-- sha_hash of src/sha.c compresses a block as the standard does.
use mathlib.Core.List.{reverse-cons, reverse-reverse}
use jabberoo.Base.{
  Str, ℕ, zero, suc, ◌+◌, ◌*◌, ◌≤◌, List, [], ◌∷◌, ◌++◌, reverse, ◌≡◌, refl, sym, ap, subst, ◌∙◌,
  length, take, drop, length-append, All, arith, take_of_length-le, take-drop, drop-drop,
  length-take, length-drop,
}
use jabberoo.Sha.{Hash, add32, add_hash, expand, words_of, message_words, sha_hash}
use jabberoo.Sha.Rounds.{IsHash, four_loops}
use jabberoo.Sha.Schedule.{
  IsByte, IsWord, switched_words, big_endian-IsWord, expand_lem, length-reverse,
}
use jabberoo.Sha.Standard.{big_endian, schedule, standard_rounds, standard_compress}

append-IsWord : (xs ys : List ℕ) → All IsWord xs → All IsWord ys → All IsWord (xs ++ ys)
append-IsWord [] ys h k = k
append-IsWord (x ∷ xs) ys h k = (h.0, append-IsWord xs ys h.1 k)

reverse-IsWord : (xs : List ℕ) → All IsWord xs → All IsWord (reverse xs)
reverse-IsWord [] h = tt
reverse-IsWord (x ∷ xs) h =
    subst (All IsWord) (sym (reverse-cons x xs))
      (append-IsWord (reverse xs) (x ∷ []) (reverse-IsWord xs h.1) (h.0, tt))

length-schedule : (n : ℕ) (w : List ℕ) → length (schedule n w) ≡ n + length w
unfolding schedule
length-schedule zero w = omega arith
length-schedule (suc n) w = length-schedule n _ ∙ omega (arith, length-append w (_ ∷ []))

length-big_endian : (n : ℕ) (s : Str) → length s ≡ n * 4 → length (big_endian s) ≡ n
unfolding big_endian
length-big_endian zero [] h = refl
length-big_endian zero (b ∷ s) h = absurd (omega arith)
length-big_endian (suc n) [] h = absurd (omega arith)
length-big_endian (suc n) (b0 ∷ []) h = absurd (omega arith)
length-big_endian (suc n) (b0 ∷ b1 ∷ []) h = absurd (omega arith)
length-big_endian (suc n) (b0 ∷ b1 ∷ b2 ∷ []) h = absurd (omega arith)
length-big_endian (suc n) (b0 ∷ b1 ∷ b2 ∷ b3 ∷ s) h = ap suc (length-big_endian n s (omega arith))

message_words_lem :
    (s : Str)
    → All IsByte s
    → length s ≡ 64
    → message_words (words_of s) ≡ schedule 64 (big_endian s)
unfolding message_words
message_words_lem s h long =
    let start = big_endian s in
    ap (λ v. reverse (expand 64 (reverse v))) (switched_words s h)
    ∙ expand_lem 64 (reverse start) (reverse-IsWord start (big_endian-IsWord s h))
        (omega (arith, length-reverse start, length-big_endian 16 s long))
    ∙ ap (schedule 64) (reverse-reverse start)

-- The four parts of eighty words.
four_parts :
    (w : List ℕ)
    → length w ≡ 80
    → take 20 w ++ (take 20 (drop 20 w) ++ (take 20 (drop 40 w) ++ take 20 (drop 60 w))) ≡ w
four_parts w long =
    let behind = λ (n : ℕ). take-drop 20 (drop n w) in
    let last = take_of_length-le 20 (drop 60 w) (omega (arith, length-drop 60 w)) in
    let p3 = ap (◌++◌ (take 20 (drop 40 w))) (last ∙ sym (drop-drop 40 20 w)) ∙ behind 40 in
    let p2 = ap (◌++◌ (take 20 (drop 20 w))) (p3 ∙ sym (drop-drop 20 20 w)) ∙ behind 20 in
    ap (◌++◌ (take 20 w)) p2 ∙ take-drop 20 w

add_hash-IsHash : (h s : Hash) → IsHash (add_hash h s)
unfolding add32
add_hash-IsHash h s = (omega arith, omega arith, omega arith, omega arith, omega arith)

-- On a block of 64 bytes and on variables that are words, sha_hash gives what the standard's
-- compression gives: its schedule of eighty words and its eighty rounds, added to the variables.
pub sha_hash-standard_compress :
    (block : Str) (h : Hash)
    → All IsByte block
    → length block ≡ 64
    → IsHash h
    → sha_hash block h ≡ standard_compress block h
unfolding sha_hash standard_compress
sha_hash-standard_compress block h bytes long hash =
    let w = message_words (words_of block) in
    let same = message_words_lem block bytes long in
    let eighty : length w ≡ 80 =
      ap length same
      ∙ length-schedule 64 (big_endian block)
      ∙ omega (arith, length-big_endian 16 block long) in
    let part =
      λ (n : ℕ) (le : n + 20 ≤ 80). length-take 20 (drop n w) (omega (arith, length-drop n w)) in
    ap (add_hash h) (
      four_loops (take 20 w) (take 20 (drop 20 w)) (take 20 (drop 40 w)) (take 20 (drop 60 w)) h
        (part 0 (omega arith)) (part 20 (omega arith)) (part 40 (omega arith))
        (part 60 (omega arith)) hash
      ∙ ap (λ v. standard_rounds 0 v h) (four_parts w eighty ∙ same))

pub standard_compress-IsHash : (block : Str) (h : Hash) → IsHash (standard_compress block h)
unfolding standard_compress
standard_compress-IsHash block h = add_hash-IsHash h _
