-- ===== src/Sha/Padding.antt =====
-- The loop of shahash of src/sha.c over the blocks: how it ends the message.
use jabberoo.Base.{
  append_assoc, Str, ℕ, zero, suc, ◌+◌, ◌-◌, ◌*◌, ◌/◌, ◌%◌, ◌^◌, ◌<◌, ◌≤◌, [], ◌∷◌, ◌++◌, true,
  false, ◌≡◌, ◌≢◌, ◌⊎◌, inl, inr, refl, sym, ap, ◌∙◌, length, take, drop, take-length-append,
  drop-length-append, take_of_length-le, length-take, length-drop, length-append, if◌then◌else◌,
  ltb, leb, nat_eq, arith, le-or-lt,
}
use jabberoo.Sha.Blocks.{
  take-append-short, drop-append-short, take-append-long, take-zeros, zeros-append, length-zeros,
}
use jabberoo.Sha.{Hash, zeros, length_bytes, finish, hash_blocks, hash_string, sha_init}
use jabberoo.Sha.Standard.{eight_bytes, padding, fold_blocks}

-- What the code puts behind a string: the padding of the standard, but nothing that marks the end
-- where the string fills its last block.
abbrev pub ending : ℕ → Str
ending n = if nat_eq (n % 64) 0 then zeros 56 ++ eight_bytes 8 (n * 8) else padding n

length_bytes_lem : (n : ℕ) → length_bytes n ≡ eight_bytes 8 n
unfolding length_bytes eight_bytes
length_bytes_lem n =
    ap
      (λ x.
        (n / 2 ^ 56 % 256)
        ∷ (n / 2 ^ 48 % 256)
        ∷ (n / 2 ^ 40 % 256)
        ∷ (n / 2 ^ 32 % 256)
        ∷ (n / 2 ^ 24 % 256)
        ∷ (n / 2 ^ 16 % 256)
        ∷ (n / 2 ^ 8 % 256)
        ∷ x
        ∷ [])
      (omega arith)

-- The bytes of a chunk, the mark, and the zeros up to a place in the buffer.
marked :
    (stop : ℕ) (chunk : Str)
    → length chunk < stop
    → stop ≤ 65
    → take stop (chunk ++ 0x80 ∷ zeros (64 - length chunk))
      ≡ chunk ++ 0x80 ∷ zeros (stop - 1 - length chunk)
marked stop chunk below small =
    let c = length chunk in
    let one : stop - c ≡ suc (stop - 1 - c) = omega arith in
    take-append-long stop chunk (0x80 ∷ zeros (64 - c)) (omega arith)
    ∙ ap (λ k. chunk ++ take k (0x80 ∷ zeros (64 - c))) one
    ∙ ap (λ z. chunk ++ 0x80 ∷ z) (take-zeros (stop - 1 - c) (64 - c) (omega arith))

length-marked : (chunk : Str) (k : ℕ) → length (chunk ++ 0x80 ∷ zeros k) ≡ length chunk + suc k
length-marked chunk k =
    length-append chunk (0x80 ∷ zeros k) ∙ ap (λ m. length chunk + suc m) (length-zeros k)

nat_eq-positive : (n : ℕ) → 0 < n → nat_eq n 0 ≡ false
nat_eq-positive n h = ground arith

leb_refl : (n : ℕ) → leb n n ≡ true
leb_refl n = ground arith

leb-above : (a b : ℕ) → b < a → leb a b ≡ false
leb-above a b h = ground arith

module _ (compress : Str → Hash → Hash) where
  -- The blocks after one that is whole.
  fold_block :
      (n : ℕ) (s : Str) (t : Str) (h : Hash)
      → length s ≡ 64
      → fold_blocks compress (suc n) (s ++ t) h ≡ fold_blocks compress n t (compress s h)
  unfolding fold_blocks
  fold_block n s t h long =
      let front = ap (λ k. take k (s ++ t)) (sym long) ∙ take-length-append s t in
      let behind = ap (λ k. drop k (s ++ t)) (sym long) ∙ drop-length-append s t in
      λ i. fold_blocks compress n (behind i) (compress (front i) h)

  fold_last : (s : Str) (h : Hash) → length s ≡ 64 → fold_blocks compress 1 s h ≡ compress s h
  unfolding fold_blocks
  fold_last s h long = ap (λ b. compress b h) (take_of_length-le 64 s (omega arith))

  -- The last block is the one with the length.
  finish_short :
      (chunk : Str) (n : ℕ) (h : Hash)
      → length chunk ≤ 55
      → length chunk ≡ n % 64
      → finish compress chunk n h ≡ fold_blocks compress 1 (chunk ++ padding n) h
  unfolding finish padding
  finish_short chunk n h short same =
      let c = length chunk in
      let bytes = eight_bytes 8 (n * 8) in
      let test : ltb 55 c ≡ false = ground arith in
      let start = marked 56 chunk (omega arith) (omega arith) in
      let gap : (119 - n % 64) % 64 ≡ 55 - c = omega arith in
      let whole : chunk ++ padding n ≡ (chunk ++ 0x80 ∷ zeros (55 - c)) ++ bytes =
        ap (λ k. chunk ++ (0x80 ∷ (zeros k ++ bytes))) gap
        ∙ sym (append_assoc chunk (0x80 ∷ zeros (55 - c)) bytes) in
      let long : length ((chunk ++ 0x80 ∷ zeros (55 - c)) ++ bytes) ≡ 64 =
        length-append (chunk ++ 0x80 ∷ zeros (55 - c)) bytes
        ∙ omega (arith, length-marked chunk (55 - c)) in
      rw test (ap (λ b. compress (b ++ length_bytes (n * 8)) h) start)
      ∙ ap (λ b. compress ((chunk ++ 0x80 ∷ zeros (55 - c)) ++ b) h) (length_bytes_lem (n * 8))
      ∙ sym (fold_last _ h long)
      ∙ ap (λ s. fold_blocks compress 1 s h) (sym whole)

  -- The length has a block of its own.
  finish_two :
      (chunk first : Str) (n : ℕ) (h : Hash)
      → 55 < length chunk
      → take 64 (chunk ++ 0x80 ∷ zeros (64 - length chunk)) ≡ first
      → length first ≡ 64
      → finish compress chunk n h
        ≡ fold_blocks compress 2 (first ++ (zeros 56 ++ eight_bytes 8 (n * 8))) h
  unfolding finish eight_bytes
  finish_two chunk first n h above start long =
      let c = length chunk in
      let test : ltb 55 c ≡ true = ground arith in
      rw test (λ i. compress (zeros 56 ++ length_bytes_lem (n * 8) i) (compress (start i) h))
      ∙ sym (
          fold_block 1 first (zeros 56 ++ eight_bytes 8 (n * 8)) h long
          ∙ fold_last (zeros 56 ++ eight_bytes 8 (n * 8)) (compress first h) refl)

  -- The mark fits behind the chunk, the length does not.
  finish_long :
      (chunk : Str) (n : ℕ) (h : Hash)
      → 55 < length chunk
      → length chunk < 64
      → length chunk ≡ n % 64
      → finish compress chunk n h ≡ fold_blocks compress 2 (chunk ++ padding n) h
  unfolding padding
  finish_long chunk n h above short same =
      let c = length chunk in
      let bytes = eight_bytes 8 (n * 8) in
      let first = chunk ++ 0x80 ∷ zeros (63 - c) in
      let gap : (119 - n % 64) % 64 ≡ 63 - c + 56 = omega arith in
      let split =
        append_assoc chunk (0x80 ∷ zeros (63 - c)) (zeros 56 ++ bytes)
        ∙ ap (λ z. chunk ++ 0x80 ∷ z)
            (sym (append_assoc (zeros (63 - c)) (zeros 56) bytes)
              ∙ ap (λ z. z ++ bytes) (zeros-append (63 - c) 56 ∙ ap zeros (sym gap))) in
      finish_two chunk first n h above (marked 64 chunk short (omega arith))
        (length-marked chunk (63 - c) ∙ omega arith)
      ∙ ap (λ s. fold_blocks compress 2 s h) split

  -- There is no place for the mark.
  finish_full :
      (chunk : Str) (n : ℕ) (h : Hash)
      → length chunk ≡ 64
      → finish compress chunk n h
        ≡ fold_blocks compress 2 (chunk ++ (zeros 56 ++ eight_bytes 8 (n * 8))) h
  finish_full chunk n h full =
      let rest = chunk ++ 0x80 ∷ zeros (64 - length chunk) in
      finish_two chunk chunk n h (omega arith)
        (ap (λ k. take k rest) (sym full)
          ∙ take-length-append chunk (0x80 ∷ zeros (64 - length chunk)))
        full

  finish_lem :
      (chunk : Str) (n : ℕ) (h : Hash)
      → 0 < length chunk
      → length chunk ≤ 64
      → length chunk % 64 ≡ n % 64
      → finish compress chunk n h
        ≡ fold_blocks compress ((length chunk + 8) / 64 + 1) (chunk ++ ending n) h
  finish_lem chunk n h some_bytes short same =
      let c = length chunk in
      let blocks = λ (k : ℕ) (e : k ≡ (c + 8) / 64 + 1).
        ap (λ k. fold_blocks compress k (chunk ++ ending n) h) e in
      elim (le-or-lt c 55) [
        | inl low ↦
            let test : nat_eq (n % 64) 0 ≡ false = ground arith in
            finish_short chunk n h low (omega arith)
            ∙ ap (λ p. fold_blocks compress 1 (chunk ++ p) h) (sym (rw test refl))
            ∙ blocks 1 (omega arith)
        | inr high ↦ elim (le-or-lt 64 c) [
          | inl full ↦
              let test : nat_eq (n % 64) 0 ≡ true = ground arith in
              finish_full chunk n h (omega arith)
              ∙ ap (λ p. fold_blocks compress 2 (chunk ++ p) h) (sym (rw test refl))
              ∙ blocks 2 (omega arith)
          | inr small ↦
              let test : nat_eq (n % 64) 0 ≡ false = ground arith in
              finish_long chunk n h high small (omega arith)
              ∙ ap (λ p. fold_blocks compress 2 (chunk ++ p) h) (sym (rw test refl))
              ∙ blocks 2 (omega arith)
        ]
      ]

  hash_blocks_lem :
      (fuel : ℕ) (str : Str) (total : ℕ) (h : Hash)
      → 0 < length str
      → length str ≤ fuel
      → total % 64 ≡ 0
      → hash_blocks compress fuel str total h
        ≡ fold_blocks compress ((length str + 8) / 64 + 1) (str ++ ending (total + length str)) h
  unfolding hash_blocks fold_blocks
  hash_blocks_lem zero str total h some_bytes enough whole = absurd (omega arith)
  hash_blocks_lem (suc fuel) str total h some_bytes enough whole =
      let empty = nat_eq-positive (length str) some_bytes in
      elim (le-or-lt (length str) 64) [
        | inl short ↦
            let all = take_of_length-le 64 str short in
            let test = leb_refl (length str) in
            rw (empty, all, test)
              (finish_lem str (total + length str) h some_bytes short (omega arith))
        | inr long ↦
            let c : length (take 64 str) ≡ 64 = length-take 64 str (omega arith) in
            let left : length (drop 64 str) ≡ length str - 64 = length-drop 64 str in
            let test = leb-above (length str) 64 long in
            let p = ending (total + length str) in
            let next = compress (take 64 str) h in
            let count : (length str + 8) / 64 + 1 ≡ suc ((length (drop 64 str) + 8) / 64 + 1) =
              omega arith in
            let sum : total + 64 + length (drop 64 str) ≡ total + length str = omega arith in
            rw (empty, c, test)
              (hash_blocks_lem fuel (drop 64 str) (total + 64) next (omega arith) (omega arith)
                  (omega arith)
                ∙ ap
                    (λ m.
                      fold_blocks compress ((length (drop 64 str) + 8) / 64 + 1)
                        (drop 64 str ++ ending m) next)
                    sum
                ∙ sym (
                    ap (λ k. fold_blocks compress k (str ++ p) h) count ∙ (λ i.
                      fold_blocks compress ((length (drop 64 str) + 8) / 64 + 1)
                        (drop-append-short 64 str p (omega arith) i)
                        (compress (take-append-short 64 str p (omega arith) i) h))))
      ]

  hash_string-nonempty :
      (str : Str)
      → 0 < length str
      → hash_string compress str
        ≡ fold_blocks compress ((length str + 8) / 64 + 1) (str ++ ending (length str)) sha_init
  unfolding hash_string
  hash_string-nonempty str some_bytes =
      let empty = nat_eq-positive (length str) some_bytes in
      let sum : 0 + length str ≡ length str = omega arith in
      rw empty (
        hash_blocks_lem (length str) str 0 sha_init some_bytes (omega arith) refl
        ∙ ap (λ n. fold_blocks compress ((length str + 8) / 64 + 1) (str ++ ending n) sha_init) sum)

  -- The blocks of the string with the standard's padding, where the string does not fill its last
  -- block or is empty.
  pub hash_string-padding :
      (str : Str)
      → (length str % 64 ≢ 0) ⊎ (str ≡ [])
      → hash_string compress str
        ≡ fold_blocks compress ((length str + 8) / 64 + 1) (str ++ padding (length str)) sha_init
  unfolding hash_string fold_blocks padding eight_bytes
  hash_string-padding [] h = refl
  hash_string-padding (b ∷ str) (inr e) = absurd (omega (arith, ap length e))
  hash_string-padding (b ∷ str) (inl h) =
      let n = length (b ∷ str) in
      let test = nat_eq-positive (n % 64) (omega (arith, h)) in
      hash_string-nonempty (b ∷ str) (omega arith)
      ∙ ap (λ p. fold_blocks compress ((n + 8) / 64 + 1) ((b ∷ str) ++ p) sha_init) (rw test refl)

  -- A string that fills its last block.
  pub hash_string_full :
      (str : Str)
      → length str % 64 ≡ 0
      → 0 < length str
      → hash_string compress str
        ≡ fold_blocks compress
            (length str / 64 + 1)
            (str ++ (zeros 56 ++ eight_bytes 8 (length str * 8)))
            sha_init
  hash_string_full str h k =
      let n = length str in
      let test : nat_eq (n % 64) 0 ≡ true = rw h refl in
      let count : (n + 8) / 64 + 1 ≡ n / 64 + 1 = omega arith in
      hash_string-nonempty str k ∙ (λ i.
        fold_blocks compress (count i)
          (str ++ (if test i then zeros 56 ++ eight_bytes 8 (n * 8) else padding n)) sha_init)
