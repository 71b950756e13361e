-- ===== src/Strategy/Chan.antt =====
-- internal/strategy/chan.go: the signal of the Chan analyses of three periods. A reason is a constructor
-- with what its text tells, and the reasons of a signal are the list that the code joins. The tolerance
-- of 1e-9 decides nothing between numbers of millionths.
pub mod Runs
pub mod Signals
use job_time_stock_watcher.Base.{
  ℕ, ◌+◌, ◌-◌, ◌*◌, ◌/◌, Bool, true, false, not, ◌&&◌, ◌||◌, List, [], ◌∷◌, ◌++◌, Option, none,
  some, Text, text_eq, date_day, date_text, length, get_last?, is_empty, keep, any, ltb, leb, ◌==◌,
  if◌then◌else◌,
}
use job_time_stock_watcher.Chanlun.{Mark, top, bottom, Direction, up, down, Fractal, Stroke, Zone}
use job_time_stock_watcher.Chanlun.Input.{RawBar, Invalid, finite}
use job_time_stock_watcher.Chanlun.Analysis.{
  Analysis, Outcome, analysis, refused, panicked, default_min_stroke_bars, analyze, latest_zone,
  last_finished_stroke, last_fractal,
}
use job_time_stock_watcher.Market.Minutes.{MinuteBar}
use job_time_stock_watcher.Market.Minutes.Grouping.{aggregate_minutes}
use job_time_stock_watcher.Strategy.{DailyBar, complete_minute_day}

pub data ChanStatus : Type 0 where
  chan_pass chan_fail chan_unknown : ChanStatus

pub data Reason : Type 0 where
  incomplete_path no_stroke below_zone falling : Reason
  too_few : ℕ → Reason
  no_fractal not_bottom not_recovered : ℕ → Reason

pub record ChanLevel : Type 0 where
  pub period : ℕ
  pub bars : ℕ
  pub merged_bars : ℕ
  pub fractals : ℕ
  pub finished_strokes : ℕ
  pub last_fractal_seen : Option Fractal
  pub last_stroke : Option Direction
  pub zone : Option Zone
  pub status : ChanStatus
  pub reason : Option Reason

pub record ChanEvidence : Type 0 where
  pub as_of : Text
  pub status : ChanStatus
  pub reasons : List Reason
  pub levels : List ChanLevel

pub data ChanError : Type 0 where
  bad_signal_date : ChanError
  bad_bars : Invalid → ChanError
  out_of_range : ChanError

pub record Signal : Type 0 where
  pub evidence : ChanEvidence
  pub error : Option ChanError

abbrev pub chan_min_bars : ℕ
chan_min_bars = 3 * default_min_stroke_bars

abbrev pub chan_periods : List ℕ
chan_periods = 30 ∷ 15 ∷ 5 ∷ []

abbrev pub chan_bar : MinuteBar → RawBar
chan_bar b = record {
  time = b.end;
  open_price = finite b.open_price;
  high = finite b.high;
  low = finite b.low;
  close = finite b.close;
  volume = finite b.volume;
  raw_bars = 1;
}

abbrev pub chan_bars : List MinuteBar → List RawBar
chan_bars [] = []
chan_bars (b ∷ bs) = chan_bar b ∷ chan_bars bs

abbrev pub direction_of : Option Stroke → Option Direction
direction_of none = none
direction_of (some s) = some s.direction

unfoldable pub level_of : ℕ → ℕ → Analysis → ChanLevel
unfolding latest_zone last_finished_stroke last_fractal
level_of period count a = record {
  period = period;
  bars = count;
  merged_bars = length a.merged_bars;
  fractals = length a.fractals;
  finished_strokes = length a.finished_strokes;
  last_fractal_seen = last_fractal a;
  last_stroke = direction_of (last_finished_stroke a);
  zone = latest_zone a;
  status = chan_unknown;
  reason = if ltb count chan_min_bars then some (too_few count) else none;
}

abbrev pub State : Type 0
State = ChanStatus × Option Reason

-- Where no stroke is finished, the last finished one is none.
unfoldable pub context_state : Analysis → State
unfolding latest_zone last_finished_stroke
context_state a = elim (last_finished_stroke a) [
  | none ↦ (chan_unknown, some no_stroke)
  | some s ↦ elim (latest_zone a) [
    | some z ↦ if ltb a.last_close z.lower then (chan_fail, some below_zone) else (chan_pass, none)
    | none ↦ elim s.direction [ down ↦ (chan_fail, some falling) | up ↦ (chan_pass, none) ]
  ]
]

unfoldable pub fractal_state : ℕ → Analysis → State
unfolding last_fractal
fractal_state period a = elim (last_fractal a) [
  | none ↦ (chan_unknown, some (no_fractal period))
  | some f ↦ elim f.mark [
    | top ↦ (chan_fail, some (not_bottom period))
    | bottom ↦
        if ltb a.last_close f.high
        then (chan_fail, some (not_recovered period))
        else (chan_pass, none)
  ]
]

abbrev pub level_state : ℕ → Analysis → State
level_state period a = if period == 30 then context_state a else fractal_state period a

unfoldable pub graded : ℕ → ℕ → Analysis → ChanLevel
unfolding level_of context_state fractal_state
graded period count a =
    let level = level_of period count a in
    let (status, reason) = level_state period a in
    if leb chan_min_bars count then record level { status = status; reason = reason } else level

abbrev pub same_reason : Reason → Reason → Bool
same_reason incomplete_path incomplete_path = true
same_reason no_stroke no_stroke = true
same_reason below_zone below_zone = true
same_reason falling falling = true
same_reason (too_few m) (too_few n) = m == n
same_reason (no_fractal m) (no_fractal n) = m == n
same_reason (not_bottom m) (not_bottom n) = m == n
same_reason (not_recovered m) (not_recovered n) = m == n
same_reason _ _ = false

abbrev pub join_status : ChanStatus → ChanStatus → ChanStatus
join_status so_far chan_fail = chan_fail
join_status chan_fail chan_unknown = chan_fail
join_status chan_pass chan_unknown = chan_unknown
join_status chan_unknown chan_unknown = chan_unknown
join_status so_far chan_pass = so_far

abbrev pub add_new : List Reason → Option Reason → List Reason
add_new reasons none = reasons
add_new reasons (some r) =
    if any (λ x. same_reason x r) reasons then reasons else reasons ++ (r ∷ [])

abbrev pub add_reason : List Reason → ChanLevel → List Reason
add_reason reasons l = elim l.status [
  | chan_pass ↦ reasons
  | chan_fail ↦ add_new reasons l.reason
  | chan_unknown ↦ add_new reasons l.reason
]

unfoldable pub combine_from : ChanStatus → List Reason → List ChanLevel → ChanStatus × List Reason
combine_from status reasons [] = (status, reasons)
combine_from status reasons (l ∷ ls) =
    combine_from (join_status status l.status) (add_reason reasons l) ls

unfoldable pub combine_levels : List ChanLevel → ChanStatus × List Reason
unfolding combine_from
combine_levels levels = combine_from chan_pass [] levels

abbrev pub empty_evidence : Text → ChanEvidence
empty_evidence date = record { as_of = date; status = chan_unknown; reasons = []; levels = [] }

-- The levels that are analysed so far are `done`.
abbrev pub failed_signal : Text → List ChanLevel → ChanError → Signal
failed_signal date done e = record {
  evidence = record (empty_evidence date) { levels = done };
  error = some e;
}

abbrev pub finished_signal : Text → List ChanLevel → Signal
finished_signal date levels =
    let (status, reasons) = combine_levels levels in
    record {
      evidence = record { as_of = date; status = status; reasons = reasons; levels = levels };
      error = none;
    }

-- What an analysis comes to: a level, after which the signal goes on, or its error.
abbrev pub next_level : Text → List ChanLevel → Outcome → (Analysis → Signal) → Signal
next_level date levels (refused x) go_on = failed_signal date levels (bad_bars x)
next_level date levels panicked go_on = failed_signal date levels out_of_range
next_level date levels (analysis a) go_on = go_on a

unfoldable pub analyze_levels : Text → List MinuteBar → ℕ → List ChanLevel → List ℕ → Signal
unfolding graded combine_levels aggregate_minutes analyze
analyze_levels date base cutoff levels [] = finished_signal date levels
analyze_levels date base cutoff levels (period ∷ periods) =
    let bars = aggregate_minutes base period cutoff in
    next_level date levels (analyze (chan_bars bars) default_min_stroke_bars) (λ a.
      analyze_levels date base cutoff (levels ++ (graded period (length bars) a ∷ [])) periods)

abbrev pub unknown_level : ℕ → ChanLevel
unknown_level period = record {
  period = period;
  bars = 0;
  merged_bars = 0;
  fractals = 0;
  finished_strokes = 0;
  last_fractal_seen = none;
  last_stroke = none;
  zone = none;
  status = chan_unknown;
  reason = some incomplete_path;
}

abbrev pub incomplete_signal : Text → Signal
incomplete_signal date = record {
  evidence = record {
    as_of = date;
    status = chan_unknown;
    reasons = incomplete_path ∷ [];
    levels = unknown_level 30 ∷ unknown_level 15 ∷ unknown_level 5 ∷ [];
  };
  error = none;
}

abbrev pub base_bars : ℕ → List MinuteBar → List MinuteBar
base_bars cutoff bars = keep (λ b. b.final && leb b.end cutoff) bars

abbrev pub signal_day : Text → List MinuteBar → List MinuteBar
signal_day date base = keep (λ b. text_eq (date_text (b.end / 86400)) date) base

abbrev pub on_date : Text → Option ℕ → (ℕ → Signal) → Signal
on_date date none at = failed_signal date [] bad_signal_date
on_date date (some day) at = at day

unfoldable pub signal_at : List MinuteBar → Text → DailyBar → ℕ → Signal
unfolding analyze_levels complete_minute_day text_eq date_text
signal_at bars date daily day =
    let cutoff = day * 86400 + 54000 in
    let base = base_bars cutoff bars in
    if not (text_eq daily.date date)
    then failed_signal date [] bad_signal_date
    else if is_empty base || not (complete_minute_day (signal_day date base) daily)
    then incomplete_signal date
    else analyze_levels date base cutoff [] chan_periods

unfoldable pub chan_signal : List MinuteBar → Text → DailyBar → Signal
unfolding signal_at date_day
chan_signal bars date daily = on_date date (date_day date) (signal_at bars date daily)
