-- ===== src/Market/Minutes.antt =====
-- internal/market/intraday.go: histories of minute bars, their validation and their aggregation. An
-- instant is a number of seconds after the midnight of a Monday in Shanghai, whose zone is fixed, as in
-- Calendar: `MinuteSession` refuses an end with a fraction of a second, so that the fractions of the
-- other instants decide nothing. Prices and volumes are numbers of millionths, as the archive stores
-- them (storage/minute_range.go); what Validate refuses (a NaN, an infinity, a negative number) is a
-- `Float` of its own, and every other module reads validated bars.
pub mod Sessions
pub mod Grouping
pub mod Gathers
pub mod Aggregates
pub mod Accepted
pub mod Fitting
pub mod Writing
pub mod Deriving
use job_time_stock_watcher.Base.{
  ℕ, suc, zero, ◌+◌, ◌-◌, ◌*◌, ◌/◌, ◌%◌, ◌^◌, Bool, true, false, not, ◌&&◌, ◌||◌, List, [], ◌∷◌,
  Option, none, some, is_some, Text, codes, text_eq, length, is_empty, keep, ltb, leb, ◌==◌, min,
  max, if◌then◌else◌,
}
use job_time_stock_watcher.Chanlun.Input.{Float, finite, negative, nan, infinite}
use job_time_stock_watcher.Market.Windows.{valid_code}

pub record RawMinute : Type 0 where
  pub end : ℕ
  pub open_price : Float
  pub high : Float
  pub low : Float
  pub close : Float
  pub volume : Float
  pub final : Bool

pub record MinuteBar : Type 0 where
  pub end : ℕ
  pub open_price : ℕ
  pub high : ℕ
  pub low : ℕ
  pub close : ℕ
  pub volume : ℕ
  pub final : Bool

pub record MinuteHistory : Type 0 where
  pub version : ℕ
  pub code : Text
  pub source : Text
  pub period : ℕ
  pub base_period : ℕ
  pub adjust : Text
  pub volume_unit : Text
  pub fetched_at : ℕ
  pub bars : List RawMinute

pub data MinuteError : Type 0 where
  bad_metadata bad_time bad_number bad_ohlc pair_periods pair_metadata pair_count pair_bars :
      MinuteError

abbrev pub minute_limit : ℕ
minute_limit = 640

abbrev pub minute_period : ℕ → Bool
minute_period p = p == 5 || p == 15 || p == 30 || p == 60

abbrev pub minute_of : ℕ → ℕ
minute_of t = t % 86400 / 60

-- Whether a period of the session that starts at a minute of the day ends at the instant.
abbrev pub ends_in : ℕ → ℕ → ℕ → Bool
ends_in start t period =
    let n = minute_of t in
    minute_period period
    && ltb start n
    && leb n (start + 120)
    && (n - start) % period == 0
    && t % 60 == 0

abbrev pub morning : ℕ
morning = 570

abbrev pub afternoon : ℕ
afternoon = 780

unfoldable pub minute_session : ℕ → ℕ → Option ℕ
minute_session t period =
    if ends_in morning t period
    then some morning
    else if ends_in afternoon t period
    then some afternoon
    else none

abbrev pub is_weekend : ℕ → Bool
is_weekend t = t / 86400 % 7 == 5 || t / 86400 % 7 == 6

-- The number of a float that Validate accepts, which is at most 1e12.
abbrev pub figure : Float → Option ℕ
figure (finite n) = if leb n (10 ^ 18) then some n else none
figure (negative _) = none
figure nan = none
figure infinite = none

abbrev pub number_in : Option ℕ → ℕ
number_in none = 0
number_in (some n) = n

abbrev pub read_minute : RawMinute → MinuteBar
read_minute r = record {
  end = r.end;
  open_price = number_in (figure r.open_price);
  high = number_in (figure r.high);
  low = number_in (figure r.low);
  close = number_in (figure r.close);
  volume = number_in (figure r.volume);
  final = r.final;
}

abbrev pub read_minutes : List RawMinute → List MinuteBar
read_minutes [] = []
read_minutes (r ∷ rs) = read_minute r ∷ read_minutes rs

abbrev pub numbers_fit : RawMinute → Bool
numbers_fit r =
    is_some (figure r.open_price)
    && is_some (figure r.high)
    && is_some (figure r.low)
    && is_some (figure r.close)
    && is_some (figure r.volume)

-- `previous` is 0 before the first bar, the zero time.
unfoldable pub time_fits : ℕ → ℕ → ℕ → MinuteBar → Bool
unfolding minute_session
time_fits period fetched_at previous b =
    is_some (minute_session b.end period)
    && ltb previous b.end
    && not (ltb (fetched_at + 300) b.end)
    && not (is_weekend b.end)

unfoldable pub ohlc_fits : ℕ → MinuteBar → Bool
ohlc_fits fetched_at b =
    ltb 0 b.low
    && not (ltb b.high (max b.open_price b.close))
    && not (ltb (min b.open_price b.close) b.low)
    && not (b.final && ltb fetched_at b.end)

unfoldable pub check_minutes : ℕ → ℕ → ℕ → List RawMinute → Option MinuteError
unfolding time_fits ohlc_fits
check_minutes period fetched_at previous [] = none
check_minutes period fetched_at previous (r ∷ rs) =
    let rest = check_minutes period fetched_at r.end rs in
    if not (time_fits period fetched_at previous (read_minute r))
    then some bad_time
    else if not (numbers_fit r)
    then some bad_number
    else if not (ohlc_fits fetched_at (read_minute r))
    then some bad_ohlc
    else rest

abbrev pub metadata_fits : ℕ → MinuteHistory → Bool
metadata_fits limit h =
    h.version == 1
    && valid_code h.code
    && text_eq h.source (codes "tencent")
    && minute_period h.period
    && h.base_period == 5
    && text_eq h.adjust (codes "none")
    && text_eq h.volume_unit (codes "provider_raw")
    && not (h.fetched_at == 0)
    && not (is_empty h.bars)
    && leb (length h.bars) limit

unfoldable pub validate_limit : ℕ → MinuteHistory → Option MinuteError
unfolding check_minutes valid_code
validate_limit limit h =
    if metadata_fits limit h
    then check_minutes h.period h.fetched_at 0 h.bars
    else some bad_metadata

unfoldable pub validate_minutes : MinuteHistory → Option MinuteError
unfolding validate_limit
validate_minutes h = validate_limit minute_limit h

unfoldable pub validate_base : MinuteHistory → Option MinuteError
unfolding validate_limit
validate_base h =
    if h.period == 5 && h.base_period == 5 then validate_limit minute_limit h else some bad_metadata
