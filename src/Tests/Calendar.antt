-- ===== src/Tests/Calendar.antt =====
-- A calendar of four weeks, with a holiday on its second Monday.
use job_time_stock_watcher.Base.{
  ℕ, ◌+◌, ◌*◌, ◌<◌, ◌≤◌, inl, inr, true, not, List, [], ◌∷◌, none, some, ◌≡◌, ◌↔◌, refl, arith, In,
  Adjacent,
}
use job_time_stock_watcher.Calendar.{
  Calendar, outside, opens, trading_days, next_day, completed, early, planned, due_plan, expired,
}
use job_time_stock_watcher.Calendar.Sessions.{IsNext, trading_days_lists, next_day_iff}
use job_time_stock_watcher.Calendar.Planning.{IsLast, last_closed, completed-IsLast, due_plan_sound}

abbrev exchange : Calendar
exchange = record { start = 7; end = 34; closed = 14 ∷ []; days = none; source = []; digest = [] }

-- Tuesday of the second week, at the given hour.
abbrev tuesday : ℕ → ℕ
tuesday hour = 15 * 86400 + hour * 3600

week : trading_days exchange (some 10) (some 16) ≡ inr (10 ∷ 11 ∷ 15 ∷ 16 ∷ [])
unfolding trading_days
week = refl

after_friday : next_day exchange (some 11) ≡ inr 15
unfolding next_day
after_friday = refl

completed_at_noon : completed exchange (tuesday 12) ≡ inr 11
unfolding completed
completed_at_noon = refl

past_the_end : next_day exchange (some 34) ≡ inl outside
unfolding next_day
past_the_end = refl

not_yet_due : due_plan exchange (tuesday 16) (some 1020) ≡ inr (early 15)
unfolding due_plan
not_yet_due = refl

due_at_six : due_plan exchange (tuesday 18) (some 1020) ≡ inr (planned 15 16 true)
unfolding due_plan
due_at_six = refl

trading_days_lists_example :
    (days : List ℕ) × (trading_days exchange (some 10) (some 16) ≡ inr days)
    × Adjacent (λ x y. x < y) days
    × (In 15 days ↔ ((10 ≤ 15) × (15 ≤ 16) × (opens exchange 15 ≡ true)))
trading_days_lists_example =
    trading_days_lists exchange 10 16 15 (omega arith) (omega arith) (omega arith)

next_day_iff_example : (next_day exchange (some 11) ≡ inr 15) ↔ IsNext exchange 31 11 15
next_day_iff_example = next_day_iff exchange 11 15

completed-IsLast_example :
    IsLast exchange (last_closed (tuesday 12)) 11 × (11 * 86400 + 54000 ≤ tuesday 12)
completed-IsLast_example = completed-IsLast exchange (tuesday 12) 11 completed_at_noon

due_plan_sound_example :
    IsLast exchange (last_closed (tuesday 18)) 15
    × IsNext exchange 31 15 16
    × (15 * 86400 + 1020 * 60 ≤ tuesday 18)
    × (true ≡ not (expired (some 16) (tuesday 18)))
due_plan_sound_example = due_plan_sound exchange (tuesday 18) 1020 15 16 true due_at_six
