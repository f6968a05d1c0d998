-- ===== src/Base/Strings.antt =====
-- `std::string` as a list of bytes: equality, the three-way comparison of `compare`, the
-- case-insensitive one of `strcasecmp`, `find` of a character and `substr`.
use Prim.Native.Char.{code}
use Prim.Native.Nat.{ℕ, suc, ◌+◌, ◌^◌, compare, Ordering}
use Prim.Native.String.{String}
use mathlib.Core.Bool.{Bool, true, false, ◌&&◌}
use mathlib.Core.List.{List, [], ◌∷◌, map}
use mathlib.Core.Logic.{◌↔◌}
use mathlib.Core.Option.{Option, none, some}
use mathlib.Core.Path.{◌≡◌, refl}
use native.Mathlib.Omega.{arith}
use jabberoo.Base.Lists.{take, drop}
use jabberoo.Base.Logic.{nat_eq, leb, if◌then◌else◌, flip}

abbrev pub Str : Type 0
Str = List ℕ

-- The bytes of an ASCII text literal.
abbrev pub codes : String → Str
codes String.[] = []
codes (String.◌∷◌ c s) = code c ∷ codes s

unfoldable pub str_compare : Str → Str → Ordering
str_compare [] [] = Ordering.eq
str_compare [] (y ∷ ys) = Ordering.lt
str_compare (x ∷ xs) [] = Ordering.gt
str_compare (x ∷ xs) (y ∷ ys) = elim (compare x y) [
  | Ordering.lt ↦ Ordering.lt
  | Ordering.eq ↦ str_compare xs ys
  | Ordering.gt ↦ Ordering.gt
]

infix 50 ◌==◌
unfoldable pub ◌==◌ : Str → Str → Bool
[] == [] = true
[] == (y ∷ ys) = false
(x ∷ xs) == [] = false
(x ∷ xs) == (y ∷ ys) = nat_eq x y && xs == ys

abbrev pub empty : Str → Bool
empty [] = true
empty (x ∷ xs) = false

-- `tolower` of the C locale.
unfoldable pub to_lower : ℕ → ℕ
to_lower c = if leb b'A' c && leb c b'Z' then c + 32 else c

-- What a callee sees of `s.c_str()`: the bytes before the first NUL.
unfoldable pub c_str : Str → Str
c_str [] = []
c_str (x ∷ xs) = if nat_eq x 0 then [] else x ∷ c_str xs

-- What `strcasecmp` compares of a text.
unfoldable pub fold_case : Str → Str
unfolding to_lower c_str
fold_case s = map to_lower (c_str s)

unfoldable pub strcasecmp : Str → Str → Ordering
strcasecmp a b = str_compare (fold_case a) (fold_case b)

-- The place of the first such character; `none` is `npos`.
unfoldable pub find_char : ℕ → Str → Option ℕ
find_char c [] = none
find_char c (x ∷ xs) =
    if nat_eq x c then some 0 else elim (find_char c xs) [ none ↦ none | some i ↦ some (suc i) ]

abbrev pub size_mod : ℕ
size_mod = 2 ^ 64

-- `substr(pos, n)` for a `pos` within the text.
abbrev pub substr : ℕ → ℕ → Str → Str
substr pos n s = take n (drop pos s)

pub ==_iff : (a b : Str) → ((a == b) ≡ true) ↔ (a ≡ b)
unfolding ◌==◌
==_iff [] [] = ground arith
==_iff [] (y ∷ ys) = ground arith
==_iff (x ∷ xs) [] = ground arith
==_iff (x ∷ xs) (y ∷ ys) = ground (arith, ==_iff xs ys)

pub ==_refl : (a : Str) → (a == a) ≡ true
==_refl a = (==_iff a a).1 refl

pub str_compare_refl : (a : Str) → str_compare a a ≡ Ordering.eq
unfolding str_compare
str_compare_refl [] = refl
str_compare_refl (x ∷ xs) = ground (arith, str_compare_refl xs)

pub eq_of_str_compare : (a b : Str) → str_compare a b ≡ Ordering.eq → a ≡ b
unfolding str_compare
eq_of_str_compare [] [] h = refl
eq_of_str_compare [] (y ∷ ys) h = cc
eq_of_str_compare (x ∷ xs) [] h = cc
eq_of_str_compare (x ∷ xs) (y ∷ ys) h = ground (arith, eq_of_str_compare xs ys)

pub str_compare-flip : (a b : Str) → str_compare b a ≡ flip (str_compare a b)
unfolding str_compare
str_compare-flip [] [] = refl
str_compare-flip [] (y ∷ ys) = refl
str_compare-flip (x ∷ xs) [] = refl
str_compare-flip (x ∷ xs) (y ∷ ys) = ground (arith, str_compare-flip xs ys)

pub str_compare_trans :
    (a b c : Str)
    → str_compare a b ≡ Ordering.lt
    → str_compare b c ≡ Ordering.lt
    → str_compare a c ≡ Ordering.lt
unfolding str_compare
str_compare_trans [] [] c h k = cc
str_compare_trans [] (y ∷ ys) [] h k = cc
str_compare_trans [] (y ∷ ys) (z ∷ zs) h k = refl
str_compare_trans (x ∷ xs) [] c h k = cc
str_compare_trans (x ∷ xs) (y ∷ ys) [] h k = cc
str_compare_trans (x ∷ xs) (y ∷ ys) (z ∷ zs) h k = ground (arith, str_compare_trans xs ys zs)
