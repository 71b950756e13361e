-- ===== src/Tests/Strategy.antt =====
-- Runs of the Chan signal on the minutes of a flat day.
use job_time_stock_watcher.Base.{
  ℕ, suc, zero, ◌+◌, ◌*◌, true, false, List, [], ◌∷◌, none, some, Text, codes, text_eq, date_day,
  date_text, ◌≡◌, refl,
}
use job_time_stock_watcher.Chanlun.Input.{finite, validate_bars}
use job_time_stock_watcher.Chanlun.Strokes.{build_strokes}
use job_time_stock_watcher.Chanlun.Fractals.{detect_fractals}
use job_time_stock_watcher.Chanlun.Merging.{merge_inclusions}
use job_time_stock_watcher.Market.Windows.{valid_code}
use job_time_stock_watcher.Market.Minutes.{RawMinute, MinuteHistory, read_minutes, validate_minutes}
use job_time_stock_watcher.Strategy.{DailyBar, minute_at, complete_minute_day}
use job_time_stock_watcher.Strategy.Chan.{
  chan_fail, too_few, no_fractal, incomplete_path, falling, bad_signal_date, combine_levels,
  unknown_level, chan_signal,
}
use job_time_stock_watcher.Strategy.Chan.Signals.{IsSignal, chan_signal-IsSignal}

abbrev flat_bars : ℕ → ℕ → List RawMinute
flat_bars i zero = []
flat_bars i (suc n) =
    record {
      end = 739620 * 86400 + minute_at i * 60;
      open_price = finite 10000000;
      high = finite 10020000;
      low = finite 9990000;
      close = finite 10010000;
      volume = finite 100;
      final = true;
    }
    ∷ flat_bars (suc i) n

abbrev flat_day : MinuteHistory
flat_day = record {
  version = 1;
  code = codes "sh600000";
  source = codes "tencent";
  period = 5;
  base_period = 5;
  adjust = codes "none";
  volume_unit = codes "provider_raw";
  fetched_at = 739620 * 86400 + 60000;
  bars = flat_bars 0 48;
}

abbrev signal_date : Text
signal_date = codes "2026-01-05"

abbrev daily_bar : DailyBar
daily_bar = record { date = signal_date; close = 10010000; high = 10020000; low = 9990000 }

day_of_date : date_day signal_date ≡ some 739620
unfolding date_day
day_of_date = refl

flat_accepted : validate_minutes flat_day ≡ none
unfolding validate_minutes valid_code text_eq
flat_accepted = refl

whole_day : complete_minute_day (read_minutes flat_day.bars) daily_bar ≡ true
unfolding complete_minute_day
whole_day = refl

other_close :
    complete_minute_day (read_minutes flat_day.bars) (record daily_bar { close = 10025000 }) ≡ false
unfolding complete_minute_day
other_close = refl

flat_reasons :
    (chan_signal (read_minutes flat_day.bars) signal_date daily_bar).evidence.reasons
    ≡ too_few 8 ∷ too_few 16 ∷ no_fractal 5 ∷ []
unfolding chan_signal text_eq date_text validate_bars build_strokes detect_fractals merge_inclusions
flat_reasons = refl

half_day :
    (chan_signal (read_minutes (flat_bars 0 24)) signal_date daily_bar).evidence.reasons
    ≡ incomplete_path ∷ []
unfolding chan_signal text_eq date_text
half_day = refl

other_date :
    (chan_signal (read_minutes flat_day.bars) (codes "2026-01-06") daily_bar).error
    ≡ some bad_signal_date
unfolding chan_signal text_eq date_text
other_date = refl

fails_over_unknown :
    combine_levels (
      unknown_level 30
      ∷ record (unknown_level 15) { status = chan_fail; reason = some falling }
      ∷ unknown_level 5
      ∷ [])
    ≡ (chan_fail, incomplete_path ∷ falling ∷ [])
unfolding combine_levels
fails_over_unknown = refl

chan_signal-IsSignal_example :
    IsSignal signal_date (chan_signal (read_minutes flat_day.bars) signal_date daily_bar)
chan_signal-IsSignal_example =
    chan_signal-IsSignal flat_day signal_date daily_bar 739620 flat_accepted refl day_of_date refl
