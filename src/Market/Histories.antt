-- ===== src/Market/Histories.antt =====
-- internal/market/market.go: the daily history and its `Validate`. Prices and volumes are numbers of the
-- smallest steps, or a float that is refused, as in Chanlun.Input: they are only compared.
use job_time_stock_watcher.Base.{
  ℕ, Bool, not, ◌&&◌, ◌||◌, List, [], ◌∷◌, ◌++◌, Option, none, is_some, Text, codes, text_eq,
  text_ltb, valid_date, weekend_date, length, is_empty, first_error, unless, ltb, leb, ◌==◌, min,
  max,
}
use job_time_stock_watcher.Chanlun.Input.{Float, finite, negative, nan, infinite, value}
use job_time_stock_watcher.Market.Windows.{valid_code}

pub record DayBar : Type 0 where
  pub date : Text
  pub open_price : Float
  pub close : Float
  pub high : Float
  pub low : Float
  pub volume : Float

pub record DayHistory : Type 0 where
  pub version : ℕ
  pub code : Text
  pub name : Text
  pub source : Text
  pub adjust : Text
  pub data_field : Text
  pub volume_unit : Text
  pub as_of : Text
  pub fetched_at : ℕ
  pub bars : List DayBar

pub data DayHistoryError : Type 0 where
  history_metadata history_as_of history_adjust history_field history_count history_order
        history_number history_range :
      DayHistoryError

abbrev pub max_history_bars : ℕ
max_history_bars = 6000

abbrev pub valid_source : Text → Bool
valid_source s =
    text_eq s (codes "tencent")
    || text_eq s (codes "sina")
    || text_eq s (codes "baostock")
    || text_eq s (codes "tushare")
    || text_eq s (codes "eastmoney")

abbrev pub valid_adjust : Text → Bool
valid_adjust a = text_eq a (codes "none") || text_eq a (codes "qfq") || text_eq a (codes "hfq")

abbrev pub field_fits : Text → Text → Bool
field_fits field adjust =
    text_eq field (codes "day")
    || not (text_eq adjust (codes "none")) && text_eq field (adjust ++ codes "day")

abbrev pub date_fits : Text → Text → Text → Bool
date_fits as_of previous date =
    valid_date date
    && text_ltb previous date
    && not (text_ltb as_of date)
    && not (weekend_date date)

abbrev pub is_amount : Float → Bool
is_amount f = is_some (value f)

abbrev pub amount : Float → ℕ
amount (finite n) = n
amount (negative _) = 0
amount nan = 0
amount infinite = 0

abbrev pub amounts_fit : DayBar → Bool
amounts_fit b =
    is_amount b.open_price
    && is_amount b.close
    && is_amount b.high
    && is_amount b.low
    && is_amount b.volume

abbrev pub range_fits : DayBar → Bool
range_fits b =
    ltb 0 (amount b.open_price)
    && ltb 0 (amount b.close)
    && ltb 0 (amount b.low)
    && leb (max (amount b.open_price) (amount b.close)) (amount b.high)
    && leb (amount b.low) (min (amount b.open_price) (amount b.close))

-- `previous` is the empty text before the first bar.
unfoldable pub check_days : Text → Text → List DayBar → Option DayHistoryError
unfolding valid_date weekend_date text_ltb
check_days as_of previous [] = none
check_days as_of previous (b ∷ bs) =
    first_error (unless (date_fits as_of previous b.date) history_order) (
      first_error (unless (amounts_fit b) history_number)
        (first_error (unless (range_fits b) history_range) (check_days as_of b.date bs)))

unfoldable pub validate_daily : DayHistory → Option DayHistoryError
unfolding check_days valid_code text_eq
validate_daily h =
    first_error
      (unless
        (h.version == 1
          && valid_code h.code
          && not (is_empty h.name)
          && valid_source h.source
          && text_eq h.volume_unit (codes "provider_raw")
          && not (h.fetched_at == 0))
        history_metadata)
      (first_error (unless (valid_date h.as_of) history_as_of) (
        first_error (unless (valid_adjust h.adjust) history_adjust) (
          first_error (unless (field_fits h.data_field h.adjust) history_field) (
            first_error
              (unless (not (is_empty h.bars) && leb (length h.bars) max_history_bars) history_count)
              (check_days h.as_of [] h.bars)))))
