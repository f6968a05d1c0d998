-- ===== src/TimeStamps.antt =====
-- getTimeStamp of src/jutil.cc: the time that gmtime gives, printed by snprintf into 18 characters,
-- the NUL behind them included. The clock and gmtime are the C library's: their result is an argument,
-- none where time() fails.
pub mod Distinct
use jabberoo.Base.{Str, Option, none, some, ℕ, ◌+◌, ◌∷◌, ◌++◌, if◌then◌else◌, ltb, take}
use jabberoo.Session.Ids.{decimal}

-- The fields of `struct tm` that are printed: years since 1900, months since January.
pub record Tm : Type 0 where
  pub tm_year : ℕ
  pub tm_mon : ℕ
  pub tm_mday : ℕ
  pub tm_hour : ℕ
  pub tm_min : ℕ
  pub tm_sec : ℕ

-- "%02d"
unfoldable pub two_digits : ℕ → Str
unfolding decimal
two_digits n = if ltb n 10 then b'0' ∷ decimal n else decimal n

-- "%d%02d%02dT%02d:%02d:%02d"
unfoldable pub time_text : Tm → Str
unfolding decimal two_digits
time_text t =
    decimal (1900 + t.tm_year)
    ++ (two_digits (t.tm_mon + 1)
        ++ (two_digits t.tm_mday
            ++ (b'T'
                ∷ (two_digits t.tm_hour
                    ++ (b':' ∷ (two_digits t.tm_min ++ (b':' ∷ two_digits t.tm_sec)))))))

-- A std::string made of the null pointer is undefined behaviour.
unfoldable pub get_time_stamp : Option Tm → Option Str
unfolding time_text
get_time_stamp none = none
get_time_stamp (some t) = some (take 17 (time_text t))
