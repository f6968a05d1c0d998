-- ===== src/TimeStamps/Distinct.antt =====
-- The time stamps of src/jutil.cc: their length, and that two times have two of them.
use jabberoo.Base.{
  Str, some, ℕ, zero, suc, ◌+◌, ◌-◌, ◌/◌, ◌%◌, ◌<◌, ◌≤◌, [], ◌∷◌, ◌≡◌, refl, sym, ap, ◌∙◌, arith,
  ltb, take, length, Bool-cases, inl, inr,
}
use jabberoo.Base.Compare.{lt_of_ltb, ge_of_ltb}
use jabberoo.Session.Ids.{write_digits, decimal}
use jabberoo.TimeStamps.{Tm, two_digits, time_text, get_time_stamp}

last_digit : (f n : ℕ) (out : Str) → n < 10 → write_digits (suc f) n out ≡ (b'0' + n) ∷ out
unfolding write_digits
last_digit f n out h = ground arith

more_digits :
    (f n : ℕ) (out : Str)
    → 10 ≤ n
    → write_digits (suc f) n out ≡ write_digits f (n / 10) ((b'0' + n % 10) ∷ out)
unfolding write_digits
more_digits f n out h = ground arith

abbrev digit : ℕ → ℕ
digit n = b'0' + n % 10

two_from :
    (f n : ℕ) (out : Str)
    → 10 ≤ n
    → n < 100
    → write_digits (suc (suc f)) n out ≡ (b'0' + n / 10) ∷ digit n ∷ out
two_from f n out low high =
    more_digits (suc f) n out low ∙ last_digit f (n / 10) (digit n ∷ out) (omega arith)

four_from :
    (f n : ℕ) (out : Str)
    → 1000 ≤ n
    → n < 10000
    → write_digits (suc (suc (suc (suc f)))) n out
      ≡ (b'0' + n / 10 / 10 / 10) ∷ digit (n / 10 / 10) ∷ digit (n / 10) ∷ digit n ∷ out
four_from f n out low high =
    more_digits (suc (suc (suc f))) n out (omega arith)
    ∙ more_digits (suc (suc f)) (n / 10) (digit n ∷ out) (omega arith)
    ∙ two_from f (n / 10 / 10) (digit (n / 10) ∷ digit n ∷ out) (omega arith) (omega arith)

two_digits_lem : (n : ℕ) → n < 100 → two_digits n ≡ (b'0' + n / 10) ∷ digit n ∷ []
unfolding two_digits decimal
two_digits_lem n h = elim (Bool-cases (ltb n 10)) [
  | inl small ↦
      let below = lt_of_ltb n 10 small in
      let none_before : n / 10 ≡ 0 = omega arith in
      let whole : n % 10 ≡ n = omega arith in
      rw (small, two_digits) (λ i. (b'0' + sym none_before i) ∷ (b'0' + sym whole i) ∷ [])
  | inr large ↦
      let over = ge_of_ltb n 10 large in
      let fuel : n ≡ suc (n - 1) = omega arith in
      rw (large, two_digits)
        (ap (λ f. write_digits f (n / 10) (digit n ∷ [])) fuel
          ∙ last_digit (n - 1) (n / 10) (digit n ∷ []) (omega arith))
]

four_digits :
    (n : ℕ)
    → 1000 ≤ n
    → n < 10000
    → decimal n ≡ (b'0' + n / 10 / 10 / 10) ∷ digit (n / 10 / 10) ∷ digit (n / 10) ∷ digit n ∷ []
unfolding decimal
four_digits n low high =
    let fuel : n ≡ suc (suc (suc (n - 3))) = omega arith in
    ap (λ f. write_digits (suc f) n []) fuel ∙ four_from (n - 3) n [] low high

-- What gmtime gives, in the years from 1900 to 9999.
abbrev pub IsDate : Tm → Type 0
IsDate t =
    (t.tm_year < 8100)
    × (t.tm_mon < 12)
    × (t.tm_mday < 32)
    × (t.tm_hour < 24)
    × (t.tm_min < 60)
    × (t.tm_sec < 61)

abbrev pair : ℕ → Str → Str
pair n out = (b'0' + n / 10) ∷ digit n ∷ out

abbrev printed : Tm → Str
printed t =
    let y = 1900 + t.tm_year in
    (b'0' + y / 10 / 10 / 10)
    ∷ digit (y / 10 / 10)
    ∷ digit (y / 10)
    ∷ digit y
    ∷ pair (t.tm_mon + 1)
        (pair t.tm_mday (b'T' ∷ pair t.tm_hour (b':' ∷ pair t.tm_min (b':' ∷ pair t.tm_sec []))))

time_text-IsDate : (t : Tm) → IsDate t → time_text t ≡ printed t
unfolding time_text
time_text-IsDate t (year, mon, day, hour, min, sec) =
    rw
      (
        four_digits (1900 + t.tm_year) (omega arith) (omega arith),
        two_digits_lem (t.tm_mon + 1) (omega arith),
        two_digits_lem t.tm_mday (omega arith),
        two_digits_lem t.tm_hour (omega arith),
        two_digits_lem t.tm_min (omega arith),
        two_digits_lem t.tm_sec (omega arith),
      )
      refl

abbrev char_at : ℕ → Str → ℕ
char_at n [] = 0
char_at zero (c ∷ cs) = c
char_at (suc n) (c ∷ cs) = char_at n cs

same_pair :
    (n m : ℕ) → n < 100 → m < 100 → b'0' + n / 10 ≡ b'0' + m / 10 → digit n ≡ digit m → n ≡ m
same_pair n m h k tens ones = omega arith

same_year :
    (n m : ℕ)
    → n < 10000
    → m < 10000
    → b'0' + n / 10 / 10 / 10 ≡ b'0' + m / 10 / 10 / 10
    → digit (n / 10 / 10) ≡ digit (m / 10 / 10)
    → digit (n / 10) ≡ digit (m / 10)
    → digit n ≡ digit m
    → n ≡ m
same_year n m h k a b c d = omega arith

printed-IsDate : (t u : Tm) → IsDate t → IsDate u → printed t ≡ printed u → t ≡ u
printed-IsDate t u (year, mon, day, hour, min, sec) (year', mon', day', hour', min', sec') e =
    let at = λ (k : ℕ). ap (char_at k) e in
    let years : 1900 + t.tm_year ≡ 1900 + u.tm_year =
      same_year (1900 + t.tm_year) (1900 + u.tm_year) (omega arith) (omega arith) (at 0) (at 1)
        (at 2) (at 3) in
    let y : t.tm_year ≡ u.tm_year = omega (arith, years) in
    let months : t.tm_mon + 1 ≡ u.tm_mon + 1 =
      same_pair (t.tm_mon + 1) (u.tm_mon + 1) (omega arith) (omega arith) (at 4) (at 5) in
    let n : t.tm_mon ≡ u.tm_mon = omega (arith, months) in
    let d = same_pair t.tm_mday u.tm_mday (omega arith) (omega arith) (at 6) (at 7) in
    let h = same_pair t.tm_hour u.tm_hour (omega arith) (omega arith) (at 9) (at 10) in
    let m = same_pair t.tm_min u.tm_min (omega arith) (omega arith) (at 12) (at 13) in
    let s = same_pair t.tm_sec u.tm_sec (omega arith) (omega arith) (at 15) (at 16) in
    λ i. record {
      tm_year = y i;
      tm_mon = n i;
      tm_mday = d i;
      tm_hour = h i;
      tm_min = m i;
      tm_sec = s i;
    }

-- For a date in the years from 1900 to 9999 the buffer of 18 characters is large enough: the stamp is
-- the whole text, 17 characters and the NUL, and two such dates that differ have two stamps.
pub get_time_stamp-IsDate :
    (t : Tm)
    → IsDate t
    → (get_time_stamp (some t) ≡ some (time_text t))
      × (length (time_text t) ≡ 17)
      × ((u : Tm) → IsDate u → get_time_stamp (some u) ≡ get_time_stamp (some t) → u ≡ t)
unfolding get_time_stamp
get_time_stamp-IsDate t date =
    let text = time_text-IsDate t date in
    (
      rw text refl,
      rw text refl,
      λ u date' same.
          printed-IsDate u t date' date
            (sym (ap (take 17) (time_text-IsDate u date')) ∙ unwrap same ∙ ap (take 17) text),
    )
  where
    unwrap : {a b : Str} → some a ≡ some b → a ≡ b
    unwrap h = cc
