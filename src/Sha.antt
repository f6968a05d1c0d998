-- ===== src/Sha.antt =====
-- src/sha.c: the Secure Hash Algorithm, on bytes and on 32-bit words as numbers below 2 ^ 32, for a
-- machine that stores the low byte of an int first. An `int` is its bit pattern; `>>` of the macros
-- is the logical shift, since each shift right is followed by a mask that hides the sign.
pub mod Words
pub mod Rounds
pub mod Standard
pub mod Schedule
pub mod Compress
pub mod Blocks
pub mod Padding
pub mod Digest
use Prim.Native.Nat.{bit_and, bit_or, bit_xor}
use jabberoo.Base.{
  Str, ℕ, zero, suc, ◌+◌, ◌-◌, ◌*◌, ◌/◌, ◌%◌, ◌^◌, List, [], ◌∷◌, ◌++◌, map, if◌then◌else◌, ltb,
  leb, nat_eq, take, drop, length, reverse,
}

abbrev pub word_mod : ℕ
word_mod = 2 ^ 32

unfoldable pub add32 : ℕ → ℕ → ℕ
add32 a b = (a + b) % word_mod

-- `x << k` on unsigned int
unfoldable pub shl : ℕ → ℕ → ℕ
shl x k = x * 2 ^ k % word_mod

abbrev pub shr : ℕ → ℕ → ℕ
shr x k = x / 2 ^ k

unfoldable pub switch_endianness : ℕ → ℕ
unfolding shl
switch_endianness x =
    bit_or
      (bit_or (bit_or (bit_and (shl x 24) 0xff000000) (bit_and (shl x 8) 0x00ff0000))
        (bit_and (shr x 8) 0x0000ff00))
      (bit_and (shr x 24) 0x000000ff)

-- `~B`
abbrev pub complement : ℕ → ℕ
complement b = word_mod - 1 - b

unfoldable pub f1 : ℕ → ℕ → ℕ → ℕ
f1 b c d = bit_or (bit_and b c) (bit_and (complement b) d)

unfoldable pub f2 : ℕ → ℕ → ℕ → ℕ
f2 b c d = bit_xor (bit_xor b c) d

unfoldable pub f3 : ℕ → ℕ → ℕ → ℕ
f3 b c d = bit_or (bit_or (bit_and b c) (bit_and b d)) (bit_and c d)

unfoldable pub rol1 : ℕ → ℕ
unfolding shl
rol1 x = bit_or (shl x 1) (bit_and (shr x 31) 1)

unfoldable pub rol5 : ℕ → ℕ
unfolding shl
rol5 a = bit_or (shl a 5) (bit_and (shr a 27) 0x1f)

unfoldable pub rol30 : ℕ → ℕ
unfolding shl
rol30 b = bit_or (shl b 30) (bit_and (shr b 2) 0x3fffffff)

abbrev pub k1 : ℕ
k1 = 0x5a827999

abbrev pub k2 : ℕ
k2 = 0x6ed9eba1

abbrev pub k3 : ℕ
k3 = 0x8f1bbcdc

abbrev pub k4 : ℕ
k4 = 0xca62c1d6

-- The variables A to E, and `hash` with its five ints.
pub record Hash : Type 0 where
  pub a : ℕ
  pub b : ℕ
  pub c : ℕ
  pub d : ℕ
  pub e : ℕ

-- The element at an index, 0 behind the end.
abbrev pub nth : ℕ → List ℕ → ℕ
nth n [] = 0
nth zero (x ∷ xs) = x
nth (suc n) (x ∷ xs) = nth n xs

-- `(int*)data` on this machine: four bytes for each int.
unfoldable pub words_of : Str → List ℕ
words_of (b0 ∷ b1 ∷ b2 ∷ b3 ∷ s) = (b0 + b1 * 2 ^ 8 + b2 * 2 ^ 16 + b3 * 2 ^ 24) ∷ words_of s
words_of _ = []

-- The loop of the data expansion, with the rounds left; the part of W that is written, the newest
-- first.
unfoldable pub expand : ℕ → List ℕ → List ℕ
unfolding rol1
expand zero w = w
expand (suc n) w =
    expand n (rol1 (bit_xor (bit_xor (bit_xor (nth 2 w) (nth 7 w)) (nth 13 w)) (nth 15 w)) ∷ w)

-- W[80]
unfoldable pub message_words : List ℕ → List ℕ
unfolding switch_endianness expand
message_words ints = reverse (expand 64 (reverse (map switch_endianness ints)))

-- The body of the four loops.
unfoldable pub round : (ℕ → ℕ → ℕ → ℕ) → ℕ → ℕ → Hash → Hash
unfolding rol5 rol30
round f k w s = record {
  a = (rol5 s.a + f s.b s.c s.d + s.e + w + k) % word_mod;
  b = s.a;
  c = rol30 s.b;
  d = s.c;
  e = s.d;
}

unfoldable pub rounds : (ℕ → ℕ → ℕ → ℕ) → ℕ → List ℕ → Hash → Hash
unfolding round
rounds f k [] s = s
rounds f k (w ∷ ws) s = rounds f k ws (round f k w s)

abbrev pub add_hash : Hash → Hash → Hash
add_hash h s = record {
  a = add32 h.a s.a;
  b = add32 h.b s.b;
  c = add32 h.c s.c;
  d = add32 h.d s.d;
  e = add32 h.e s.e;
}

-- sha_hash, on the 64 bytes of the block
unfoldable pub sha_hash : Str → Hash → Hash
unfolding words_of message_words rounds f1 f2 f3
sha_hash bytes hash =
    let w = message_words (words_of bytes) in
    let s1 = rounds f1 k1 (take 20 w) hash in
    let s2 = rounds f2 k2 (take 20 (drop 20 w)) s1 in
    let s3 = rounds f3 k3 (take 20 (drop 40 w)) s2 in
    add_hash hash (rounds f2 k4 (take 20 (drop 60 w)) s3)

unfoldable pub sha_init : Hash
sha_init = record { a = 0x67452301; b = 0xefcdab89; c = 0x98badcfe; d = 0x10325476; e = 0xc3d2e1f0 }

abbrev pub zeros : ℕ → Str
zeros zero = []
zeros (suc n) = 0 ∷ zeros n

-- The bytes 56 to 63 of the last block: `(length >> (56 - i*8)) & 0xff`.
unfoldable pub length_bytes : ℕ → Str
length_bytes n =
    (n / 2 ^ 56 % 256)
    ∷ (n / 2 ^ 48 % 256)
    ∷ (n / 2 ^ 40 % 256)
    ∷ (n / 2 ^ 32 % 256)
    ∷ (n / 2 ^ 24 % 256)
    ∷ (n / 2 ^ 16 % 256)
    ∷ (n / 2 ^ 8 % 256)
    ∷ (n % 256)
    ∷ []

-- The compression of a block is a parameter of the loop over the blocks.
module _ (compress : Str → Hash → Hash) where
  -- What the last round of the loop makes of the read buffer, whose first c bytes are `chunk`, and
  -- of the length so far.
  unfoldable pub finish : Str → ℕ → Hash → Hash
  unfolding length_bytes
  finish chunk total hash =
      let c = length chunk in
      let bits = total * 8 in
      let buffer = chunk ++ 0x80 ∷ zeros (64 - c) in
      let hash' = if ltb 55 c then compress (take 64 buffer) hash else hash in
      let buffer' = if ltb 55 c then zeros 56 ++ drop 56 buffer else buffer in
      compress (take 56 buffer' ++ length_bytes bits) hash'

  -- `while (strsz > 0)`, the string being what is left of it. Each round takes a byte at least, so
  -- the length of the string is fuel enough.
  unfoldable pub hash_blocks : ℕ → Str → ℕ → Hash → Hash
  unfolding finish
  hash_blocks zero str total hash = hash
  hash_blocks (suc fuel) str total hash =
      let chunk = take 64 str in
      let c = length chunk in
      let rest = hash_blocks fuel (drop 64 str) (total + c) (compress chunk hash) in
      if nat_eq (length str) 0
      then hash
      else if leb (length str) c
      then finish chunk (total + c) hash
      else rest

  unfoldable pub hash_string : Str → Hash
  unfolding hash_blocks sha_init
  hash_string str =
      if nat_eq (length str) 0
      then compress (0x80 ∷ zeros 63) sha_init
      else hash_blocks (length str) str 0 sha_init

-- `%x` of one digit
unfoldable pub hex_digit : ℕ → ℕ
hex_digit n = if ltb n 10 then b'0' + n else b'a' + n - 10

-- `%08x` of a word: digits from the highest
unfoldable pub hex_word : ℕ → ℕ → Str
unfolding hex_digit
hex_word zero w = []
hex_word (suc n) w = hex_digit (w / 16 ^ n % 16) ∷ hex_word n w

unfoldable pub strprintsha : Hash → Str
unfolding hex_word
strprintsha h =
    hex_word 8 h.a ++ hex_word 8 h.b ++ hex_word 8 h.c ++ hex_word 8 h.d ++ hex_word 8 h.e

-- The argument is a C string: the bytes before its NUL.
unfoldable pub shahash : Str → Str
unfolding strprintsha hash_string sha_hash
shahash str = strprintsha (hash_string sha_hash str)
