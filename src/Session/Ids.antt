-- ===== src/Session/Ids.antt =====
-- The ids of Session::getNextID of src/jabberoo-session.cc: `snprintf(buf, 8, "j%ld", _ID++)`, so
-- seven characters at most.
pub mod Distinct
use jabberoo.Base.{Str, ℕ, zero, suc, ◌+◌, ◌/◌, ◌%◌, [], ◌∷◌, take, if◌then◌else◌, ltb}

-- The decimal digits, put in front of those already written. `n` rounds are enough for `n`.
unfoldable pub write_digits : ℕ → ℕ → Str → Str
write_digits zero n out = out
write_digits (suc f) n out =
    let rest = write_digits f (n / 10) ((b'0' + n % 10) ∷ out) in
    if ltb n 10 then (b'0' + n) ∷ out else rest

unfoldable pub decimal : ℕ → Str
unfolding write_digits
decimal n = write_digits (suc n) n []

unfoldable pub id_text : ℕ → Str
unfolding decimal
id_text n = take 7 (b'j' ∷ decimal n)
