-- ===== src/Tests/Minutes.antt =====
-- Runs of the minute histories on concrete bars.
use job_time_stock_watcher.Base.{
  ℕ, ◌+◌, ◌*◌, true, false, [], ◌∷◌, none, some, codes, text_eq, ◌≡◌, refl, inl, All, arith,
}
use job_time_stock_watcher.Chanlun.Input.{finite}
use job_time_stock_watcher.Market.Windows.{valid_code}
use job_time_stock_watcher.Market.Minutes.{
  RawMinute, MinuteHistory, bad_time, pair_bars, minute_session, validate_minutes, validate_base,
  read_minutes,
}
use job_time_stock_watcher.Market.Minutes.Grouping.{aggregate_minutes, validate_pair}
use job_time_stock_watcher.Market.Minutes.Aggregates.{Groups, IsAggregate, aggregate_minutes-All}
use job_time_stock_watcher.Market.Minutes.Deriving.{
  finished_bars, derived_history, derived_history-accepted,
}

-- The bar that ends at a minute of a Monday.
abbrev bar_at : ℕ → ℕ → RawMinute
bar_at minute price = record {
  end = minute * 60;
  open_price = finite price;
  high = finite (price + 3);
  low = finite (price + 0);
  close = finite (price + 1);
  volume = finite 100;
  final = true;
}

abbrev native : MinuteHistory
native = record {
  version = 1;
  code = codes "sh600000";
  source = codes "tencent";
  period = 5;
  base_period = 5;
  adjust = codes "none";
  volume_unit = codes "provider_raw";
  fetched_at = 600 * 60;
  bars =
      bar_at 575 10
      ∷ bar_at 580 12
      ∷ bar_at 585 11
      ∷ bar_at 590 9
      ∷ bar_at 595 8
      ∷ bar_at 600 7
      ∷ [];
}

native_accepted : validate_minutes native ≡ none
unfolding validate_minutes valid_code text_eq
native_accepted = refl

native_base : validate_base native ≡ none
unfolding validate_base valid_code text_eq
native_base = refl

unordered_refused :
    validate_minutes (record native { bars = bar_at 580 10 ∷ bar_at 575 10 ∷ [] }) ≡ some bad_time
unfolding validate_minutes valid_code text_eq
unordered_refused = refl

lunch_has_no_session : minute_session (720 * 60) 5 ≡ none
unfolding minute_session
lunch_has_no_session = refl

quarters :
    finished_bars native 15
    ≡ record {
      end = 585 * 60;
      open_price = 10;
      high = 15;
      low = 10;
      close = 12;
      volume = 300;
      final = true;
    }
      ∷ record {
        end = 600 * 60;
        open_price = 9;
        high = 12;
        low = 7;
        close = 8;
        volume = 300;
        final = true;
      }
      ∷ []
unfolding finished_bars
quarters = refl

-- With a gap the group is dropped, and an unfinished group at the end is kept while its end is ahead.
gap_dropped :
    aggregate_minutes
      (read_minutes (bar_at 575 10 ∷ bar_at 585 11 ∷ bar_at 590 9 ∷ []))
      15
      (591 * 60)
    ≡ record {
      end = 600 * 60;
      open_price = 9;
      high = 12;
      low = 9;
      close = 10;
      volume = 100;
      final = false;
    }
      ∷ []
unfolding aggregate_minutes
gap_dropped = refl

relabelled_refused :
    validate_pair native (record native { period = 15; bars = bar_at 585 10 ∷ bar_at 600 10 ∷ [] })
    ≡ some pair_bars
unfolding validate_pair valid_code text_eq
relabelled_refused = refl

aggregate_minutes-All_example :
    Groups 15
      (600 * 60)
      (read_minutes native.bars)
      (aggregate_minutes (read_minutes native.bars) 15 (600 * 60))
    × All
        (IsAggregate 15 (600 * 60) (read_minutes native.bars))
        (aggregate_minutes (read_minutes native.bars) 15 (600 * 60))
aggregate_minutes-All_example =
    aggregate_minutes-All (read_minutes native.bars) 15 (600 * 60) refl refl

derived_history-accepted_example :
    (validate_minutes (derived_history native 15) ≡ none)
    × (validate_pair native (derived_history native 15) ≡ none)
unfolding finished_bars
derived_history-accepted_example =
    derived_history-accepted native 15 native_accepted refl (inl refl) refl
      (omega arith, (omega arith, tt))
