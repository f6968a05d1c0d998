-- ===== src/Sha/Digest.antt =====
-- shahash of src/sha.c, from the string to the text of the digest, against the standard.
use jabberoo.Base.{
  Str, ℕ, zero, suc, ◌+◌, ◌-◌, ◌*◌, ◌/◌, ◌%◌, ◌^◌, ◌<◌, [], ◌∷◌, ◌++◌, ◌≡◌, ◌≢◌, ◌⊎◌, refl, ap, ◌∙◌,
  length, take, drop, length-append, length-take, length-drop, All, arith,
}
use jabberoo.Sha.{Hash, zeros, sha_init, sha_hash, hex_word, strprintsha, shahash}
use jabberoo.Sha.Rounds.{IsHash}
use jabberoo.Sha.Schedule.{IsByte}
use jabberoo.Sha.Compress.{sha_hash-standard_compress, standard_compress-IsHash}
use jabberoo.Sha.Blocks.{length-zeros}
use jabberoo.Sha.Padding.{hash_string-padding, hash_string_full}
use jabberoo.Sha.Standard.{eight_bytes, padding, fold_blocks, standard_compress}

-- The digest of a message by the standard.
unfoldable pub standard_digest : Str → Hash
standard_digest str =
    fold_blocks standard_compress ((length str + 8) / 64 + 1) (str ++ padding (length str)) sha_init

append-IsByte : (xs ys : Str) → All IsByte xs → All IsByte ys → All IsByte (xs ++ ys)
append-IsByte [] ys h k = k
append-IsByte (x ∷ xs) ys h k = (h.0, append-IsByte xs ys h.1 k)

take-IsByte : (n : ℕ) (xs : Str) → All IsByte xs → All IsByte (take n xs)
take-IsByte zero xs h = tt
take-IsByte (suc n) [] h = tt
take-IsByte (suc n) (x ∷ xs) h = (h.0, take-IsByte n xs h.1)

drop-IsByte : (n : ℕ) (xs : Str) → All IsByte xs → All IsByte (drop n xs)
drop-IsByte zero xs h = h
drop-IsByte (suc n) [] h = tt
drop-IsByte (suc n) (x ∷ xs) h = drop-IsByte n xs h.1

zeros-IsByte : (n : ℕ) → All IsByte (zeros n)
zeros-IsByte zero = tt
zeros-IsByte (suc n) = (omega arith, zeros-IsByte n)

mod-IsByte : (n : ℕ) → IsByte (n % 256)
mod-IsByte n = omega arith

eight_bytes-IsByte : (k n : ℕ) → All IsByte (eight_bytes k n)
unfolding eight_bytes
eight_bytes-IsByte zero n = tt
eight_bytes-IsByte (suc k) n = (mod-IsByte (n / 256 ^ k), eight_bytes-IsByte k n)

length-eight_bytes : (k n : ℕ) → length (eight_bytes k n) ≡ k
unfolding eight_bytes
length-eight_bytes zero n = refl
length-eight_bytes (suc k) n = ap suc (length-eight_bytes k n)

padding-IsByte : (n : ℕ) → All IsByte (padding n)
unfolding padding
padding-IsByte n = (
  omega arith,
  append-IsByte (zeros ((119 - n % 64) % 64)) (eight_bytes 8 (n * 8))
      (zeros-IsByte ((119 - n % 64) % 64)) (eight_bytes-IsByte 8 (n * 8)),
)

length-padding : (n : ℕ) → length (padding n) ≡ (119 - n % 64) % 64 + 9
unfolding padding
length-padding n =
    let gap = (119 - n % 64) % 64 in
    omega (
      arith,
      length-append (zeros gap) (eight_bytes 8 (n * 8)),
      length-zeros gap,
      length-eight_bytes 8 (n * 8),
    )

-- Over whole blocks of bytes, the compression of the code is the standard's.
same_blocks :
    (n : ℕ) (s : Str) (h : Hash)
    → All IsByte s
    → length s ≡ n * 64
    → IsHash h
    → fold_blocks sha_hash n s h ≡ fold_blocks standard_compress n s h
unfolding fold_blocks
same_blocks zero s h bytes long hash = refl
same_blocks (suc n) s h bytes long hash =
    let first = take 64 s in
    let step =
      sha_hash-standard_compress first h (take-IsByte 64 s bytes) (length-take 64 s (omega arith))
        hash in
    ap (fold_blocks sha_hash n (drop 64 s)) step
    ∙ same_blocks n (drop 64 s) (standard_compress first h) (drop-IsByte 64 s bytes)
        (length-drop 64 s ∙ omega arith) (standard_compress-IsHash first h)

sha_init-IsHash : IsHash sha_init
unfolding sha_init
sha_init-IsHash = (omega arith, omega arith, omega arith, omega arith, omega arith)

-- For a string of bytes that is empty or whose length is no multiple of 64, shahash returns the
-- text of the digest that the standard defines: the string with a one bit, zeros and its length in
-- bits behind it, compressed block by block.
pub shahash-standard_digest :
    (str : Str)
    → All IsByte str
    → (length str % 64 ≢ 0) ⊎ (str ≡ [])
    → shahash str ≡ strprintsha (standard_digest str)
unfolding shahash standard_digest
shahash-standard_digest str bytes h =
    let n = length str in
    let end = padding n in
    ap strprintsha (
      hash_string-padding sha_hash str h
      ∙ same_blocks ((n + 8) / 64 + 1) (str ++ end) sha_init
          (append-IsByte str end bytes (padding-IsByte n))
          (omega (arith, length-append str end, length-padding n)) sha_init-IsHash)

-- For a string of bytes whose length is a positive multiple of 64, shahash returns the text of the
-- compression of the string and of one more block, which holds zeros and the length in bits but not
-- the one bit that the standard puts behind the string.
pub shahash_full :
    (str : Str)
    → All IsByte str
    → length str % 64 ≡ 0
    → 0 < length str
    → shahash str
      ≡ strprintsha (
          fold_blocks standard_compress
            (length str / 64 + 1)
            (str ++ (zeros 56 ++ eight_bytes 8 (length str * 8)))
            sha_init)
unfolding shahash
shahash_full str bytes h k =
    let n = length str in
    let eight = length-eight_bytes 8 (n * 8) in
    let end = zeros 56 ++ eight_bytes 8 (n * 8) in
    ap strprintsha (
      hash_string_full sha_hash str h k
      ∙ same_blocks (n / 64 + 1) (str ++ end) sha_init
          (append-IsByte str end bytes (
            append-IsByte (zeros 56) (eight_bytes 8 (n * 8)) (zeros-IsByte 56)
              (eight_bytes-IsByte 8 (n * 8))))
          (omega (arith, length-append str end)) sha_init-IsHash)

-- The text of a digest has 40 characters.
pub length-strprintsha : (h : Hash) → length (strprintsha h) ≡ 40
unfolding strprintsha hex_word
length-strprintsha h = refl
