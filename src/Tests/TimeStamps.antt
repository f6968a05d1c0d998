-- ===== src/Tests/TimeStamps.antt =====
-- A time stamp of src/jutil.cc.
use jabberoo.Base.{some, length, ◌≡◌, arith}
use jabberoo.TimeStamps.{Tm, time_text, get_time_stamp}
use jabberoo.TimeStamps.Distinct.{IsDate, get_time_stamp-IsDate}

abbrev noon : Tm
noon = record { tm_year = 102; tm_mon = 6; tm_mday = 9; tm_hour = 12; tm_min = 5; tm_sec = 0 }

get_time_stamp-IsDate_example :
    (get_time_stamp (some noon) ≡ some (time_text noon))
    × (length (time_text noon) ≡ 17)
    × ((u : Tm) → IsDate u → get_time_stamp (some u) ≡ get_time_stamp (some noon) → u ≡ noon)
get_time_stamp-IsDate_example = get_time_stamp-IsDate noon (omega arith)
