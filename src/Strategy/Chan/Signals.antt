-- ===== src/Strategy/Chan/Signals.antt =====
-- The Chan signal of an accepted minute history.
use job_time_stock_watcher.Base.{
  ℕ, ◌+◌, ◌*◌, Bool, true, false, not, ◌&&◌, ◌||◌, ◌⊎◌, inl, inr, List, [], ◌∷◌, ◌++◌, none, some,
  Text, text_eq, text_eq_refl, date_day, length, is_empty, any, leb, if◌then◌else◌, ◌≡◌, refl, sym,
  ap, ◌∙◌, subst, Bool-cases, arith,
}
use job_time_stock_watcher.Chanlun.Analysis.{Analysis, default_min_stroke_bars}
use job_time_stock_watcher.Chanlun.Analysis.Sound.{analyze_succeeds}
use job_time_stock_watcher.Market.Minutes.{MinuteBar, MinuteHistory, read_minutes, validate_minutes}
use job_time_stock_watcher.Market.Minutes.Grouping.{aggregate_minutes}
use job_time_stock_watcher.Market.Minutes.Sessions.{IsLong}
use job_time_stock_watcher.Market.Minutes.Deriving.{accepted-Fits}
use job_time_stock_watcher.Strategy.{DailyBar, complete_minute_day}
use job_time_stock_watcher.Strategy.Chan.{
  ChanStatus, chan_pass, chan_fail, chan_unknown, Reason, ChanLevel, Signal, chan_bars,
  chan_min_bars, chan_periods, graded, join_status, add_reason, combine_from, combine_levels,
  finished_signal, next_level, analyze_levels, incomplete_signal, base_bars, signal_day, on_date,
  signal_at, chan_signal,
}
use job_time_stock_watcher.Strategy.Chan.Runs.{
  Runs, Fits-Runs, Runs-keep, aggregate_minutes-Runs, read_chans, Runs-validate_bars,
}

abbrev pub is_fail : ChanStatus → Bool
is_fail chan_fail = true
is_fail chan_pass = false
is_fail chan_unknown = false

abbrev pub is_unknown : ChanStatus → Bool
is_unknown chan_unknown = true
is_unknown chan_pass = false
is_unknown chan_fail = false

abbrev judged : Bool → Bool → ChanStatus
judged fails unknowns = if fails then chan_fail else if unknowns then chan_unknown else chan_pass

-- A failed_signal level fails the signal; without one, an unknown level leaves it unknown.
abbrev pub worst : List ChanLevel → ChanStatus
worst ls = judged (any (λ l. is_fail l.status) ls) (any (λ l. is_unknown l.status) ls)

worst_step :
    (s t : ChanStatus) (f u : Bool)
    → judged (is_fail (join_status s t) || f) (is_unknown (join_status s t) || u)
      ≡ judged (is_fail s || (is_fail t || f)) (is_unknown s || (is_unknown t || u))
worst_step chan_pass chan_pass f u = refl
worst_step chan_pass chan_fail f u = refl
worst_step chan_pass chan_unknown f u = refl
worst_step chan_fail chan_pass f u = refl
worst_step chan_fail chan_fail f u = refl
worst_step chan_fail chan_unknown f u = refl
worst_step chan_unknown chan_pass f u = refl
worst_step chan_unknown chan_fail f u = refl
worst_step chan_unknown chan_unknown f u = refl

combine_from-worst :
    (s : ChanStatus) (reasons : List Reason) (ls : List ChanLevel)
    → (combine_from s reasons ls).0
      ≡ judged
          (is_fail s || any (λ l. is_fail l.status) ls)
          (is_unknown s || any (λ l. is_unknown l.status) ls)
unfolding combine_from
combine_from-worst chan_pass reasons [] = refl
combine_from-worst chan_fail reasons [] = refl
combine_from-worst chan_unknown reasons [] = refl
combine_from-worst s reasons (l ∷ ls) =
    combine_from-worst (join_status s l.status) (add_reason reasons l) ls
    ∙ worst_step s l.status (any (λ l. is_fail l.status) ls) (any (λ l. is_unknown l.status) ls)

combine_levels-worst : (ls : List ChanLevel) → (combine_levels ls).0 ≡ worst ls
unfolding combine_levels
combine_levels-worst ls = combine_from-worst chan_pass [] ls

abbrev pub level_periods : List ChanLevel → List ℕ
level_periods [] = []
level_periods (l ∷ ls) = l.period ∷ level_periods ls

pub record IsSignal (date : Text) (s : Signal) : Type 0 where
  pub no_error : s.error ≡ none
  pub dated : s.evidence.as_of ≡ date
  pub levels : level_periods s.evidence.levels ≡ chan_periods
  pub status : s.evidence.status ≡ worst s.evidence.levels

finished-IsSignal :
    (date : Text) (ls : List ChanLevel)
    → level_periods ls ≡ chan_periods
    → IsSignal date (finished_signal date ls)
finished-IsSignal date ls h = record {
  no_error = refl;
  dated = refl;
  levels = h;
  status = combine_levels-worst ls;
}

incomplete-IsSignal : (date : Text) → IsSignal date (incomplete_signal date)
incomplete-IsSignal date = record { no_error = refl; dated = refl; levels = refl; status = refl }

graded-period : (period count : ℕ) (a : Analysis) → (graded period count a).period ≡ period
unfolding graded
graded-period period count a = elim (Bool-cases (leb chan_min_bars count)) [
  | inl h ↦ rw h refl
  | inr h ↦ rw h refl
]

level_step :
    (date : Text) (base : List MinuteBar) (cutoff period : ℕ) (levels : List ChanLevel)
    (periods : List ℕ)
    → (period ≡ 5) ⊎ IsLong period
    → Runs 0 base
    → (l : ChanLevel) × (l.period ≡ period)
      × (analyze_levels date base cutoff levels (period ∷ periods)
          ≡ analyze_levels date base cutoff (levels ++ (l ∷ [])) periods)
unfolding analyze_levels
level_step date base cutoff period levels periods h r =
    let bars = aggregate_minutes base period cutoff in
    let runs = aggregate_minutes-Runs base period cutoff 0 h r in
    let (a, e, _) =
      analyze_succeeds (chan_bars bars) (read_chans bars) default_min_stroke_bars (omega arith)
        (Runs-validate_bars 0 bars runs) in
    (
      graded period (length bars) a,
      graded-period period (length bars) a,
      ap
          (λ o. next_level date levels o (λ b.
            analyze_levels date base cutoff (levels ++ (graded period (length bars) b ∷ []))
              periods))
          e,
    )

analyzed-IsSignal :
    (date : Text) (base : List MinuteBar) (cutoff : ℕ)
    → Runs 0 base
    → IsSignal date (analyze_levels date base cutoff [] chan_periods)
analyzed-IsSignal date base cutoff r =
    let (l, p, e) = level_step date base cutoff 30 [] (15 ∷ 5 ∷ []) (inr (inr (inl refl))) r in
    let (m, q, f) = level_step date base cutoff 15 (l ∷ []) (5 ∷ []) (inr (inl refl)) r in
    let (n, t, g) = level_step date base cutoff 5 (l ∷ m ∷ []) [] (inl refl) r in
    let periods : level_periods (l ∷ m ∷ n ∷ []) ≡ chan_periods = rw (p, q, t) refl in
    subst (IsSignal date) (sym (e ∙ f ∙ g))
      (unfold analyze_levels in finished-IsSignal date (l ∷ m ∷ n ∷ []) periods)

choose-IsSignal :
    (date : Text) (same incomplete : Bool) (x y z : Signal)
    → same ≡ true
    → IsSignal date y
    → IsSignal date z
    → IsSignal date (if not same then x else if incomplete then y else z)
choose-IsSignal date same incomplete x y z h p q = elim (Bool-cases incomplete) [
  | inl k ↦ rw (h, k) p
  | inr k ↦ rw (h, k) q
]

signal_at-IsSignal :
    (bars : List MinuteBar) (date : Text) (daily : DailyBar) (day : ℕ)
    → daily.date ≡ date
    → Runs 0 bars
    → IsSignal date (signal_at bars date daily day)
unfolding signal_at
signal_at-IsSignal bars date daily day same r =
    let cutoff = day * 86400 + 54000 in
    let base = base_bars cutoff bars in
    let equal : text_eq daily.date date ≡ true =
      ap (text_eq daily.date) (sym same) ∙ text_eq_refl daily.date in
    let runs = Runs-keep (λ b. b.final && leb b.end cutoff) 0 bars r in
    choose-IsSignal date (text_eq daily.date date)
      (is_empty base || not (complete_minute_day (signal_day date base) daily)) _ _ _ equal
      (incomplete-IsSignal date) (analyzed-IsSignal date base cutoff runs)

-- Of an accepted five-minute history, and for a date of which the daily bar is given, the Chan signal has
-- no error: the bars that `AggregateMinutes` makes are ones that `Analyze` accepts. It has one level for
-- each of 30, 15 and 5 minutes, in this order; it fails if one of them fails, else it is unknown if one
-- of them is, and else it passes.
pub chan_signal-IsSignal :
    (h : MinuteHistory) (date : Text) (daily : DailyBar) (day : ℕ)
    → validate_minutes h ≡ none
    → h.period ≡ 5
    → date_day date ≡ some day
    → daily.date ≡ date
    → IsSignal date (chan_signal (read_minutes h.bars) date daily)
unfolding chan_signal
chan_signal-IsSignal h date daily day valid five is_date same =
    let bars = read_minutes h.bars in
    let runs = Fits-Runs 5 h.fetched_at 0 bars (accepted-Fits h valid five) in
    subst (IsSignal date) (sym (ap (λ o. on_date date o (signal_at bars date daily)) is_date))
      (signal_at-IsSignal bars date daily day same runs)
