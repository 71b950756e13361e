-- ===== src/Calendar.antt =====
-- internal/calendar/calendar.go: the exchange calendar. A date text is what `time.ParseInLocation`
-- reads in it: a day, the number of days after a Monday before all dates of the calendar, or nothing.
-- The order of texts that are dates is the order of their days. An instant is a number of seconds after
-- that Monday's midnight in Shanghai, whose zone is fixed.
pub mod Sessions
pub mod Planning
pub mod History
use job_time_stock_watcher.Base.{
  ℕ, zero, suc, ◌+◌, ◌-◌, ◌*◌, ◌%◌, ◌/◌, Bool, true, false, not, ◌&&◌, ◌||◌, ◌⊎◌, inl, inr, List,
  [], ◌∷◌, Option, none, some, Text, codes, is_empty, any, ltb, leb, ◌==◌, if◌then◌else◌,
}

pub record CalendarConfig : Type 0 where
  pub valid_from : ℕ
  pub valid_through : ℕ
  pub holidays : List ℕ
  pub trading_days : List ℕ
  pub source : Text
  pub digest : Text

-- `days` is none where the source's map is nil.
pub record Calendar : Type 0 where
  pub start : ℕ
  pub end : ℕ
  pub closed : List ℕ
  pub days : Option (List ℕ)
  pub source : Text
  pub digest : Text

pub data CalendarError : Type 0 where
  outside invalid_range unreadable not_found : CalendarError

unfoldable pub new_calendar : CalendarConfig → Calendar
new_calendar c = record {
  start = c.valid_from;
  end = c.valid_through;
  closed = c.holidays;
  days = if is_empty c.trading_days then none else some c.trading_days;
  source = if is_empty c.source then codes "configured" else c.source;
  digest = c.digest;
}

-- A read of one of the maps.
abbrev pub has : List ℕ → ℕ → Bool
has days d = any (λ x. x == d) days

abbrev pub weekend : ℕ → Bool
weekend d = d % 7 == 5 || d % 7 == 6

abbrev pub within : Calendar → ℕ → Bool
within c d = leb c.start d && leb d c.end

-- Whether a day that the calendar covers is a session.
abbrev pub opens : Calendar → ℕ → Bool
opens c d = elim (c.days) [
  | some days ↦ has days d
  | none ↦ not (weekend d) && not (has c.closed d)
]

unfoldable pub covers : Calendar → Option ℕ → Option ℕ → CalendarError ⊎ Bool
covers c (some first) (some last) =
    if ltb last first then inl invalid_range else inr (leb c.start first && leb last c.end)
covers c _ _ = inl unreadable

unfoldable pub trading : Calendar → Option ℕ → CalendarError ⊎ Bool
trading c none = inl outside
trading c (some d) = if within c d then inr (opens c d) else inl outside

-- `fuel` days from `d` on.
unfoldable pub days_loop : Calendar → ℕ → ℕ → CalendarError ⊎ List ℕ
unfolding trading
days_loop c zero d = inr []
days_loop c (suc fuel) d =
    let rest = days_loop c fuel (d + 1) in
    elim (trading c (some d)) [
      | inl e ↦ inl e
      | inr ok ↦ elim rest [ inl e ↦ inl e | inr ds ↦ inr (if ok then d ∷ ds else ds) ]
    ]

unfoldable pub trading_days : Calendar → Option ℕ → Option ℕ → CalendarError ⊎ List ℕ
unfolding days_loop
trading_days c (some first) (some last) =
    if ltb last first
    then inl invalid_range
    else if ltb first c.start || ltb c.end last
    then inl outside
    else days_loop c (last + 1 - first) first
trading_days c _ _ = inl unreadable

-- `fuel` days after `d`.
unfoldable pub next_loop : Calendar → ℕ → ℕ → CalendarError ⊎ ℕ
unfolding trading
next_loop c zero d = inl not_found
next_loop c (suc fuel) d =
    let rest = next_loop c fuel (d + 1) in
    elim (trading c (some (d + 1))) [ inl e ↦ inl e | inr ok ↦ if ok then inr (d + 1) else rest ]

unfoldable pub next_day : Calendar → Option ℕ → CalendarError ⊎ ℕ
unfolding next_loop
next_day c none = inl unreadable
next_day c (some d) = next_loop c 31 d

-- `fuel` days up to `d`. The day before day 0 is before all days that the calendar covers.
unfoldable pub completed_loop : Calendar → ℕ → ℕ → CalendarError ⊎ ℕ
unfolding trading
completed_loop c zero d = inl not_found
completed_loop c (suc fuel) zero = elim (trading c (some 0)) [
  | inl e ↦ inl e
  | inr ok ↦ if ok then inr 0 else if fuel == 0 then inl not_found else inl outside
]
completed_loop c (suc fuel) (suc d) =
    let rest = completed_loop c fuel d in
    elim (trading c (some (suc d))) [ inl e ↦ inl e | inr ok ↦ if ok then inr (suc d) else rest ]

abbrev pub day_of : ℕ → ℕ
day_of now = now / 86400

abbrev pub hour_of : ℕ → ℕ
hour_of now = now % 86400 / 3600

-- From the day before, if the day is not over.
abbrev completed_from : Calendar → ℕ → Bool → CalendarError ⊎ ℕ
completed_from c d false = completed_loop c 31 d
completed_from c zero true = inl outside
completed_from c (suc d) true = completed_loop c 31 d

unfoldable pub completed : Calendar → ℕ → CalendarError ⊎ ℕ
unfolding trading completed_loop
completed c now = elim (trading c (some (day_of now))) [
  | inl e ↦ inl e
  | inr _ ↦ completed_from c (day_of now) (ltb (hour_of now) 15)
]

-- The session that is complete, and, after its publication time, the session that follows it and
-- whether that is still to open.
pub data DuePlan : Type 0 where
  early : ℕ → DuePlan
  planned : ℕ → ℕ → Bool → DuePlan

abbrev pub open_of : ℕ → ℕ
open_of d = d * 86400 + 34200

-- `run_at` is what `time.Parse` reads in the clock time: minutes after midnight.
unfoldable pub due_plan : Calendar → ℕ → Option ℕ → CalendarError ⊎ DuePlan
unfolding completed next_day
due_plan c now run_at = elim (completed c now) [
  | inl e ↦ inl e
  | inr as_of ↦ elim run_at [
    | none ↦ inl unreadable
    | some minutes ↦
        if ltb now (as_of * 86400 + minutes * 60)
        then inr (early as_of)
        else elim (next_day c (some as_of)) [
          | inl e ↦ inl e
          | inr target ↦ inr (planned as_of target (ltb now (open_of target)))
        ]
  ]
]

unfoldable pub expired : Option ℕ → ℕ → Bool
expired none now = true
expired (some target) now = leb (open_of target) now
