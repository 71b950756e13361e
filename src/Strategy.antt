-- ===== src/Strategy.antt =====
-- internal/strategy: what the strategies read of the market. Prices are numbers of millionths, those of
-- the daily bar too, which `History.Validate` has accepted.
pub mod Chan
use job_time_stock_watcher.Base.{
  ℕ, suc, ◌+◌, ◌-◌, ◌*◌, Bool, true, false, not, ◌&&◌, ◌||◌, List, [], ◌∷◌, Option, none, some,
  Text, date_day, length, get_last?, ltb, leb, ◌==◌, min, max, if◌then◌else◌,
}
use job_time_stock_watcher.Market.Minutes.{MinuteBar}

pub record DailyBar : Type 0 where
  pub date : Text
  pub close : ℕ
  pub high : ℕ
  pub low : ℕ

-- The minute of the day at which the bar of an index ends.
abbrev pub minute_at : ℕ → ℕ
minute_at i = if leb 24 i then 785 + (i - 24) * 5 else 575 + i * 5

-- 0.015 in millionths.
abbrev pub tolerance : ℕ
tolerance = 15000

abbrev pub minute_fits : DailyBar → ℕ → ℕ → MinuteBar → Bool
minute_fits daily day i b =
    b.end == day * 86400 + minute_at i * 60
    && b.final
    && ltb 0 b.low
    && leb (max b.open_price b.close) b.high
    && leb b.low (min b.open_price b.close)
    && not (ltb (b.low + tolerance) daily.low)
    && not (ltb (daily.high + tolerance) b.high)

abbrev pub minutes_fit : DailyBar → ℕ → ℕ → List MinuteBar → Bool
minutes_fit daily day i [] = true
minutes_fit daily day i (b ∷ bs) = minute_fits daily day i b && minutes_fit daily day (suc i) bs

abbrev pub close_near : ℕ → ℕ → Bool
close_near a b = ltb a (b + tolerance) && ltb b (a + tolerance)

unfoldable pub complete_minute_day : List MinuteBar → DailyBar → Bool
unfolding date_day
complete_minute_day bars daily =
    length bars == 48
    && (elim (date_day daily.date) [ none ↦ false | some day ↦ minutes_fit daily day 0 bars ])
    && (elim (get_last? bars) [ none ↦ false | some b ↦ close_near b.close daily.close ])
