-- ===== src/Tests/Hashes.antt =====
-- Digests of src/sha.c.
use jabberoo.Base.{Str, codes, ℕ, zero, suc, ◌++◌, [], ◌∷◌, ◌≡◌, inl, refl, All, arith}
use jabberoo.Sha.{shahash, strprintsha, zeros, add32, sha_init}
use jabberoo.Sha.Schedule.{IsByte}
use jabberoo.Sha.Standard.{eight_bytes, fold_blocks, standard_compress}
use jabberoo.Sha.Digest.{standard_digest, shahash-standard_digest, shahash_full}

abbrev repeated : ℕ → Str
repeated zero = []
repeated (suc n) = b'a' ∷ repeated n

repeated-IsByte : (n : ℕ) → All IsByte (repeated n)
repeated-IsByte zero = tt
repeated-IsByte (suc n) = (omega arith, repeated-IsByte n)

-- The test of the standard.
digest_of_abc : shahash (codes "abc") ≡ codes "a9993e364706816aba3e25717850c26c9cd0d89d"
unfolding shahash add32
digest_of_abc = refl

digest_of_empty : shahash [] ≡ codes "da39a3ee5e6b4b0d3255bfef95601890afd80709"
unfolding shahash add32
digest_of_empty = refl

-- Two blocks: the length does not fit behind 60 bytes.
shahash-standard_digest_example :
    shahash (repeated 60) ≡ strprintsha (standard_digest (repeated 60))
shahash-standard_digest_example =
    shahash-standard_digest (repeated 60) (repeated-IsByte 60) (inl (omega arith))

shahash_full_example :
    shahash (repeated 64)
    ≡ strprintsha
        (fold_blocks standard_compress 2 (repeated 64 ++ (zeros 56 ++ eight_bytes 8 512)) sha_init)
shahash_full_example = shahash_full (repeated 64) (repeated-IsByte 64) refl (omega arith)
