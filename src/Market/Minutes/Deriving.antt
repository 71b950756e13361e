-- ===== src/Market/Minutes/Deriving.antt =====
-- `ValidateMinutePair` on what `AggregateMinutes` makes of an accepted five-minute history.
use job_time_stock_watcher.Base.{
  first_error, ℕ, ◌≤◌, Bool, true, false, not, ◌&&◌, inl, inr, List, [], ◌∷◌, Option, none, some,
  codes, text_eq, text_eq_refl, length, is_empty, leb, ◌==◌, if◌then◌else◌, All, ◌≡◌, refl, ap, ◌∙◌,
  subst, Bool-cases, arith,
}
use job_time_stock_watcher.Market.Windows.{valid_code}
use job_time_stock_watcher.Market.Minutes.{
  RawMinute, MinuteBar, MinuteHistory, MinuteError, pair_periods, pair_metadata, minute_limit,
  minute_period, read_minutes, check_minutes, metadata_fits, validate_limit, validate_minutes,
}
use job_time_stock_watcher.Market.Minutes.Grouping.{
  aggregate_minutes, compare_pair, final_bars, same_metadata, validate_pair,
}
use job_time_stock_watcher.Market.Minutes.Sessions.{IsLong}
use job_time_stock_watcher.Market.Minutes.Aggregates.{aggregate_minutes-All}
use job_time_stock_watcher.Market.Minutes.Accepted.{Fits, check_minutes-Fits}
use job_time_stock_watcher.Market.Minutes.Fitting.{Groups-Fits}
use job_time_stock_watcher.Market.Minutes.Writing.{
  write_minutes, IsVolume, Fits-read_minutes, Fits-check_minutes, Groups-length, final_bars-length,
  write_minutes-length, read_minutes-length, compare_pair_refl,
}

-- The final bars of the period that the history's bars make.
unfoldable pub finished_bars : MinuteHistory → ℕ → List MinuteBar
unfolding aggregate_minutes
finished_bars h period = final_bars (aggregate_minutes (read_minutes h.bars) period h.fetched_at)

unfoldable pub derived_history : MinuteHistory → ℕ → MinuteHistory
unfolding finished_bars
derived_history h period = record h {
  period = period;
  bars = write_minutes (finished_bars h period);
}

validated-metadata :
    (limit : ℕ) (h : MinuteHistory) → validate_limit limit h ≡ none → metadata_fits limit h ≡ true
unfolding validate_limit
validated-metadata limit h v = elim (Bool-cases (metadata_fits limit h)) [
  | inl m ↦ m
  | inr m ↦ let impossible : true ≡ false = ground (arith, m, v) in cc
]

pub accepted-Fits :
    (h : MinuteHistory)
    → validate_minutes h ≡ none
    → h.period ≡ 5
    → Fits 5 h.fetched_at 0 (read_minutes h.bars)
unfolding validate_minutes validate_limit
accepted-Fits h valid five =
    let m = validated-metadata minute_limit h valid in
    let checked : check_minutes h.period h.fetched_at 0 h.bars ≡ none = ground (arith, valid, m) in
    subst (λ p. Fits p h.fetched_at 0 (read_minutes h.bars)) five
      (check_minutes-Fits h.period h.fetched_at 0 h.bars checked)

metadata_fits-changed :
    (limit period : ℕ) (h : MinuteHistory) (bars : List RawMinute)
    → metadata_fits limit h ≡ true
    → minute_period period ≡ true
    → is_empty bars ≡ false
    → length bars ≤ limit
    → metadata_fits limit (record h { period = period; bars = bars }) ≡ true
metadata_fits-changed limit period h bars m p e l =
    let few : leb (length bars) limit ≡ true = ground (arith, l) in
    let version : (h.version == 1) ≡ true = ground (arith, m) in
    let code : valid_code h.code ≡ true = ground (arith, m) in
    let source : text_eq h.source (codes "tencent") ≡ true = ground (arith, m) in
    let native : (h.base_period == 5) ≡ true = ground (arith, m) in
    let adjust : text_eq h.adjust (codes "none") ≡ true = ground (arith, m) in
    let unit : text_eq h.volume_unit (codes "provider_raw") ≡ true = ground (arith, m) in
    let fetched : (h.fetched_at == 0) ≡ false = ground (arith, m) in
    rw (version, code, source, p, native, adjust, unit, fetched, e, few) refl

metadata-length :
    (limit : ℕ) (h : MinuteHistory) → metadata_fits limit h ≡ true → length h.bars ≤ limit
metadata-length limit h m = ground (arith, m)

metadata-native :
    (limit : ℕ) (h : MinuteHistory) → metadata_fits limit h ≡ true → (h.base_period == 5) ≡ true
metadata-native limit h m = ground (arith, m)

same_metadata_refl : (h : MinuteHistory) → same_metadata h h ≡ true
same_metadata_refl h =
    let fetched : (h.fetched_at == h.fetched_at) ≡ true = ground arith in
    rw
      (
        text_eq_refl h.code,
        text_eq_refl h.source,
        text_eq_refl h.adjust,
        text_eq_refl h.volume_unit,
        fetched,
      )
      refl

checks_pass :
    (periods same : Bool) (rest : Option MinuteError)
    → periods ≡ true
    → same ≡ true
    → rest ≡ none
    → (if not periods then some pair_periods else if not same then some pair_metadata else rest)
      ≡ none
checks_pass periods same rest p s r = rw (p, s, r) refl

pair_accepts :
    (base derived : MinuteHistory)
    → (base.period == 5) ≡ true
    → (derived.period == 5) ≡ false
    → (derived.base_period == 5) ≡ true
    → same_metadata base derived ≡ true
    → validate_minutes base ≡ none
    → validate_minutes derived ≡ none
    → compare_pair
        (final_bars (aggregate_minutes (read_minutes base.bars) derived.period base.fetched_at))
        (read_minutes derived.bars)
      ≡ none
    → validate_pair base derived ≡ none
unfolding validate_pair
pair_accepts base derived five long native same valid ok c =
    let pair =
      compare_pair
        (final_bars (aggregate_minutes (read_minutes base.bars) derived.period base.fetched_at))
        (read_minutes derived.bars) in
    let periods : (base.period == 5 && not (derived.period == 5) && derived.base_period == 5)
        ≡ true =
      rw (five, long, native) refl in
    checks_pass _ _ _ periods same (
      ap (λ v. first_error v (first_error (validate_minutes derived) pair)) valid
      ∙ ap (λ v. first_error v pair) ok
      ∙ c)

module _ (base : MinuteHistory) (period : ℕ) (valid : validate_minutes base ≡ none)
    (five : base.period ≡ 5) (long : IsLong period)
    (some_bars : is_empty (finished_bars base period) ≡ false)
    (volumes : All IsVolume (finished_bars base period)) where
  metadata : metadata_fits minute_limit base ≡ true
  unfolding validate_minutes
  metadata = validated-metadata minute_limit base valid

  long_period : minute_period period ≡ true
  long_period = elim long [
    | inl e ↦ ground (arith, e)
    | inr (inl e) ↦ ground (arith, e)
    | inr (inr e) ↦ ground (arith, e)
  ]

  not_five : (period == 5) ≡ false
  not_five = elim long [
    | inl e ↦ ground (arith, e)
    | inr (inl e) ↦ ground (arith, e)
    | inr (inr e) ↦ ground (arith, e)
  ]

  finished-Fits : Fits period base.fetched_at 0 (finished_bars base period)
  unfolding finished_bars
  finished-Fits =
      let (groups, _) =
        aggregate_minutes-All (read_minutes base.bars) period base.fetched_at long_period
          not_five in
      Groups-Fits period base.fetched_at 0 long groups (accepted-Fits base valid five)

  finished-length : length (finished_bars base period) ≤ length base.bars
  unfolding finished_bars
  finished-length =
      let (groups, _) =
        aggregate_minutes-All (read_minutes base.bars) period base.fetched_at long_period
          not_five in
      let few = Groups-length period base.fetched_at groups in
      let kept =
        final_bars-length (aggregate_minutes (read_minutes base.bars) period base.fetched_at) in
      let same = read_minutes-length base.bars in omega (arith, few, kept, same)

  written-present :
      (bs : List MinuteBar) → is_empty bs ≡ false → is_empty (write_minutes bs) ≡ false
  written-present [] h = h
  written-present (b ∷ bs) h = refl

  derived-metadata : metadata_fits minute_limit (derived_history base period) ≡ true
  unfolding derived_history
  derived-metadata =
      let few = finished-length in
      let written = write_minutes-length (finished_bars base period) in
      let present = written-present (finished_bars base period) some_bars in
      let base_length = metadata-length minute_limit base metadata in
      metadata_fits-changed minute_limit period base (write_minutes (finished_bars base period))
        metadata long_period present (omega (arith, few, written, base_length))

  derived-checked :
      check_minutes period base.fetched_at 0 (write_minutes (finished_bars base period)) ≡ none
  derived-checked =
      Fits-check_minutes period base.fetched_at 0 (finished_bars base period) volumes finished-Fits

  derived-valid : validate_minutes (derived_history base period) ≡ none
  unfolding validate_minutes validate_limit derived_history
  derived-valid = rw (derived-metadata, derived-checked) refl

  derived-pair : validate_pair base (derived_history base period) ≡ none
  unfolding derived_history finished_bars
  derived-pair =
      let base_five : (base.period == 5) ≡ true = ground (arith, five) in
      let read =
        Fits-read_minutes period base.fetched_at 0 (finished_bars base period) volumes
          finished-Fits in
      let same =
        ap (compare_pair (finished_bars base period)) read
        ∙ compare_pair_refl (finished_bars base period) in
      pair_accepts base (derived_history base period) base_five not_five
        (metadata-native minute_limit base metadata) (same_metadata_refl base) valid derived-valid
        same

  -- Of an accepted five-minute history, the final bars that `AggregateMinutes` makes for a period of 15,
  -- 30 or 60 minutes, where there are some and no volume is above the bound of `Validate`, are the bars
  -- of a history of that period that `Validate` accepts, and that `ValidateMinutePair` accepts as derived
  -- from the first.
  pub derived_history-accepted :
      (validate_minutes (derived_history base period) ≡ none)
      × (validate_pair base (derived_history base period) ≡ none)
  derived_history-accepted = (derived-valid, derived-pair)
