-- ===== src/Market/Minutes/Grouping.antt =====
-- internal/market/intraday.go: `AggregateMinutes` and `ValidateMinutePair`. The loop moves its index to
-- the end of the group that it has read, so it runs on fuel, the number of bars: each round drops one.
use job_time_stock_watcher.Base.{
  ℕ, suc, zero, ◌+◌, ◌-◌, ◌*◌, ◌/◌, Bool, true, false, not, ◌&&◌, ◌||◌, List, [], ◌∷◌, Option, none,
  some, text_eq, length, is_empty, keep, first_error, ltb, leb, ◌==◌, min, max, if◌then◌else◌,
}
use job_time_stock_watcher.Market.Minutes.{
  MinuteBar, MinuteHistory, MinuteError, pair_periods, pair_metadata, pair_count, pair_bars,
  minute_period, minute_of, minute_session, validate_minutes, read_minutes,
}

-- The end of the group of a period that a bar of the session belongs to.
abbrev pub group_end : ℕ → ℕ → ℕ → ℕ
group_end start period t =
    t / 86400 * 86400 + (start + ((minute_of t - start - 1) / period + 1) * period) * 60

-- What the inner loop has gathered: the bar, whether it is contiguous, how many bars, and the rest.
pub record Gathered : Type 0 where
  pub bar : MinuteBar
  pub valid : Bool
  pub count : ℕ
  pub rest : List MinuteBar

abbrev pub join_bar : MinuteBar → MinuteBar → MinuteBar
join_bar g b = record {
  end = g.end;
  open_price = g.open_price;
  high = max g.high b.high;
  low = min g.low b.low;
  close = b.close;
  volume = g.volume + b.volume;
  final = g.final && b.final;
}

-- `last` is the end of the bar before.
unfoldable pub gather : MinuteBar → Bool → ℕ → ℕ → List MinuteBar → Gathered
gather g valid count last [] = record { bar = g; valid = valid; count = count; rest = [] }
gather g valid count last (b ∷ bs) =
    let more = gather (join_bar g b) (valid && b.end == last + 300) (suc count) b.end bs in
    if leb b.end g.end
    then more
    else record { bar = g; valid = valid; count = count; rest = b ∷ bs }

-- The group of a bar whose group has the end.
abbrev pub gather_from : ℕ → ℕ → MinuteBar → List MinuteBar → Gathered
gather_from period end first bs =
    gather (record first { end = end }) (first.end + (period - 5) * 60 == end) 1 first.end bs

-- Whether the group is emitted, and the group that is.
abbrev pub is_complete : ℕ → Gathered → Bool
is_complete period g = g.count == period / 5

abbrev pub is_emitted : ℕ → ℕ → Gathered → Bool
is_emitted period observed g =
    g.valid && (is_complete period g || is_empty g.rest && ltb observed g.bar.end)

abbrev pub emitted_bar : ℕ → Gathered → MinuteBar
emitted_bar period g = record (g.bar) { final = g.bar.final && is_complete period g }

unfoldable pub group_loop : ℕ → ℕ → ℕ → List MinuteBar → List MinuteBar
unfolding gather minute_session
group_loop period observed fuel [] = []
group_loop period observed zero (first ∷ bs) = []
group_loop period observed (suc fuel) (first ∷ bs) = elim (minute_session first.end 5) [
  | none ↦ group_loop period observed fuel bs
  | some start ↦
      let g = gather_from period (group_end start period first.end) first bs in
      let more = group_loop period observed fuel g.rest in
      if is_emitted period observed g then emitted_bar period g ∷ more else more
]

unfoldable pub aggregate_minutes : List MinuteBar → ℕ → ℕ → List MinuteBar
unfolding group_loop
aggregate_minutes bars period observed =
    if not (minute_period period)
    then []
    else if period == 5
    then bars
    else group_loop period observed (length bars) bars

-- 1e-6, the difference of two numbers that are one millionth apart.
abbrev pub near : ℕ → ℕ → Bool
near a b = leb a (b + 1) && leb b (a + 1)

abbrev pub bool_eq : Bool → Bool → Bool
bool_eq true b = b
bool_eq false b = not b

unfoldable pub same_bar : MinuteBar → MinuteBar → Bool
same_bar want got =
    want.end == got.end
    && bool_eq want.final got.final
    && near want.open_price got.open_price
    && near want.high got.high
    && near want.low got.low
    && near want.close got.close
    && near want.volume got.volume

-- Of lists of the same length.
abbrev pub same_bars : List MinuteBar → List MinuteBar → Bool
same_bars (w ∷ ws) (g ∷ gs) = same_bar w g && same_bars ws gs
same_bars _ _ = true

unfoldable pub compare_pair : List MinuteBar → List MinuteBar → Option MinuteError
unfolding same_bar
compare_pair expected derived =
    if not (length expected == length derived)
    then some pair_count
    else if same_bars expected derived
    then none
    else some pair_bars

abbrev pub final_bars : List MinuteBar → List MinuteBar
final_bars bars = keep (λ b. b.final) bars

abbrev pub same_metadata : MinuteHistory → MinuteHistory → Bool
same_metadata base derived =
    text_eq base.code derived.code
    && text_eq base.source derived.source
    && text_eq base.adjust derived.adjust
    && text_eq base.volume_unit derived.volume_unit
    && base.fetched_at == derived.fetched_at

unfoldable pub validate_pair : MinuteHistory → MinuteHistory → Option MinuteError
unfolding validate_minutes aggregate_minutes compare_pair
validate_pair base derived =
    if not (base.period == 5 && not (derived.period == 5) && derived.base_period == 5)
    then some pair_periods
    else if not (same_metadata base derived)
    then some pair_metadata
    else first_error (validate_minutes base) (
        first_error (validate_minutes derived) (
          compare_pair
            (final_bars (aggregate_minutes (read_minutes base.bars) derived.period base.fetched_at))
            (read_minutes derived.bars)))
