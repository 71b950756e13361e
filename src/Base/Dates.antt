-- ===== src/Base/Dates.antt =====
-- Dates of the calendar as texts. What `time.Parse("2006-01-02", s)` accepts: four, two and two digits joined by dashes that name a
-- day of the calendar.
use Prim.Native.Nat.{ℕ, ◌+◌, ◌-◌, ◌*◌, ◌/◌, ◌%◌}
use mathlib.Core.Bool.{Bool, true, false, not, ◌&&◌, ◌||◌}
use mathlib.Core.Option.{Option, none, some}
use mathlib.Core.List.{[], ◌∷◌}
use job_time_stock_watcher.Base.Tests.{ltb, leb, ◌==◌, if◌then◌else◌}
use job_time_stock_watcher.Base.Bytes.{Text}

abbrev is_digit : ℕ → Bool
is_digit c = leb b'0' c && leb c b'9'

abbrev number : ℕ → Text → ℕ
number acc [] = acc
number acc (c ∷ cs) = number (acc * 10 + (c - b'0')) cs

abbrev digits : Text → Bool
digits [] = true
digits (c ∷ cs) = is_digit c && digits cs

abbrev is_leap : ℕ → Bool
is_leap y = y % 4 == 0 && (not (y % 100 == 0) || y % 400 == 0)

abbrev month_days : ℕ → ℕ → ℕ
month_days y m =
    if m == 2
    then (if is_leap y then 29 else 28)
    else if m == 4 || m == 6 || m == 9 || m == 11
    then 30
    else 31

unfoldable pub valid_date : Text → Bool
valid_date (a ∷ b ∷ c ∷ d ∷ p ∷ e ∷ f ∷ q ∷ g ∷ h ∷ []) =
    let year = number 0 (a ∷ b ∷ c ∷ d ∷ []) in
    let month = number 0 (e ∷ f ∷ []) in
    let day = number 0 (g ∷ h ∷ []) in
    digits (a ∷ b ∷ c ∷ d ∷ e ∷ f ∷ g ∷ h ∷ [])
    && p == b'-'
    && q == b'-'
    && leb 1 month
    && leb month 12
    && leb 1 day
    && leb day (month_days year month)
valid_date _ = false

-- The days from the first of March of the year 0 on, in the calendar that repeats after 400 years.
abbrev day_number : ℕ → ℕ → ℕ → ℕ
day_number y m d =
    let year = y + 400 - (if leb m 2 then 1 else 0) in
    365 * year + year / 4 - year / 100 + year / 400 + (153 * ((m + 9) % 12) + 2) / 5 + (d - 1)

-- Whether a text that `valid_date` accepts names a Saturday or a Sunday. The first of January of the
-- year 1 was a Monday.
unfoldable pub weekend_date : Text → Bool
weekend_date (a ∷ b ∷ c ∷ d ∷ p ∷ e ∷ f ∷ q ∷ g ∷ h ∷ []) =
    let days =
      day_number (number 0 (a ∷ b ∷ c ∷ d ∷ [])) (number 0 (e ∷ f ∷ [])) (number 0 (g ∷ h ∷ [])) in
    leb 5 ((days - 306) % 7)
weekend_date _ = false

-- The day of a text that `time.Parse` accepts, counted from the first of January of the year 1; one of
-- the year 0 counts as that day.
unfoldable pub date_day : Text → Option ℕ
unfolding valid_date
date_day (a ∷ b ∷ c ∷ d ∷ p ∷ e ∷ f ∷ q ∷ g ∷ h ∷ []) =
    let days =
      day_number (number 0 (a ∷ b ∷ c ∷ d ∷ [])) (number 0 (e ∷ f ∷ [])) (number 0 (g ∷ h ∷ [])) in
    if valid_date (a ∷ b ∷ c ∷ d ∷ p ∷ e ∷ f ∷ q ∷ g ∷ h ∷ []) then some (days - 146403) else none
date_day _ = none

abbrev digit : ℕ → ℕ
digit n = b'0' + n % 10

-- `Format("2006-01-02")` of the day, which counts from the first of January of the year 1.
unfoldable pub date_text : ℕ → Text
date_text day =
    let z = day + 306 in
    let era = z / 146097 in
    let doe = z % 146097 in
    let yoe = (doe + doe / 36524 - doe / 1460 - doe / 146096) / 365 in
    let doy = doe - (365 * yoe + yoe / 4 - yoe / 100) in
    let mp = (5 * doy + 2) / 153 in
    let d = doy - (153 * mp + 2) / 5 + 1 in
    let m = if ltb mp 10 then mp + 3 else mp - 9 in
    let y = yoe + era * 400 + (if leb m 2 then 1 else 0) in
    digit (y / 1000)
    ∷ digit (y / 100)
    ∷ digit (y / 10)
    ∷ digit y
    ∷ b'-'
    ∷ digit (m / 10)
    ∷ digit m
    ∷ b'-'
    ∷ digit (d / 10)
    ∷ digit d
    ∷ []
