-- ===== src/Sha/Standard.antt =====
-- The Secure Hash Standard (FIPS 180-1), which src/sha.c implements: the schedule of words, the eighty
-- rounds with their functions and constants by the round's number, and the padding of a message.
use Prim.Native.Nat.{bit_and, bit_or, bit_xor}
use jabberoo.Base.{
  Str, ℕ, zero, suc, ◌+◌, ◌-◌, ◌*◌, ◌/◌, ◌%◌, ◌^◌, List, [], ◌∷◌, ◌++◌, if◌then◌else◌, ltb, length,
  take, drop,
}
use jabberoo.Sha.{Hash, word_mod, complement, add_hash, nth, zeros}
use jabberoo.Sha.Words.{rotl}

-- A block as words, the high byte of each first.
unfoldable pub big_endian : Str → List ℕ
big_endian (b0 ∷ b1 ∷ b2 ∷ b3 ∷ s) = (b0 * 2 ^ 24 + b1 * 2 ^ 16 + b2 * 2 ^ 8 + b3) ∷ big_endian s
big_endian _ = []

-- W(t) of the words so far, for t = length w.
abbrev pub next_word : List ℕ → ℕ
next_word w =
    let t = length w in
    rotl 1 (
      bit_xor (bit_xor (bit_xor (nth (t - 3) w) (nth (t - 8) w)) (nth (t - 14) w)) (nth (t - 16) w))

unfoldable pub schedule : ℕ → List ℕ → List ℕ
schedule zero w = w
schedule (suc n) w = schedule n (w ++ next_word w ∷ [])

unfoldable pub choose : ℕ → ℕ → ℕ → ℕ
choose b c d = bit_or (bit_and b c) (bit_and (complement b) d)

unfoldable pub parity : ℕ → ℕ → ℕ → ℕ
parity b c d = bit_xor (bit_xor b c) d

unfoldable pub majority : ℕ → ℕ → ℕ → ℕ
majority b c d = bit_or (bit_or (bit_and b c) (bit_and b d)) (bit_and c d)

unfoldable pub function_of : ℕ → ℕ → ℕ → ℕ → ℕ
function_of t =
    if ltb t 20 then choose else if ltb t 40 then parity else if ltb t 60 then majority else parity

unfoldable pub constant_of : ℕ → ℕ
constant_of t =
    if ltb t 20
    then 0x5a827999
    else if ltb t 40
    then 0x6ed9eba1
    else if ltb t 60
    then 0x8f1bbcdc
    else 0xca62c1d6

unfoldable pub standard_round : ℕ → ℕ → Hash → Hash
unfolding function_of constant_of
standard_round t w s = record {
  a = (rotl 5 s.a + function_of t s.b s.c s.d + s.e + w + constant_of t) % word_mod;
  b = s.a;
  c = rotl 30 s.b;
  d = s.c;
  e = s.d;
}

-- The rounds from t on, with their words.
unfoldable pub standard_rounds : ℕ → List ℕ → Hash → Hash
unfolding standard_round
standard_rounds t [] s = s
standard_rounds t (w ∷ ws) s = standard_rounds (suc t) ws (standard_round t w s)

unfoldable pub standard_compress : Str → Hash → Hash
unfolding big_endian schedule standard_rounds
standard_compress block h = add_hash h (standard_rounds 0 (schedule 64 (big_endian block)) h)

-- A number as eight bytes, the high one first.
unfoldable pub eight_bytes : ℕ → ℕ → Str
eight_bytes zero n = []
eight_bytes (suc k) n = (n / 256 ^ k % 256) ∷ eight_bytes k n

-- A one bit, zeros up to 8 bytes short of a whole block, and the length in bits.
unfoldable pub padding : ℕ → Str
unfolding eight_bytes
padding n = 0x80 ∷ zeros ((119 - n % 64) % 64) ++ eight_bytes 8 (n * 8)

-- The blocks of a message, one after the other.
unfoldable pub fold_blocks : (Str → Hash → Hash) → ℕ → Str → Hash → Hash
fold_blocks compress zero s h = h
fold_blocks compress (suc n) s h = fold_blocks compress n (drop 64 s) (compress (take 64 s) h)
