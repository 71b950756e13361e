-- ===== src/Selection/Inputs.antt =====
-- What `Execute` checks before it asks the engine.
use job_time_stock_watcher.Base.{
  ℕ, ◌/◌, Bool, true, false, not, ◌&&◌, ◌||◌, List, [], ◌∷◌, ◌++◌, Option, none, some, is_some,
  Text, codes, text_eq, text_ltb, date_text, is_empty, any, first_error, unless, ◌==◌,
  if◌then◌else◌,
}
use job_time_stock_watcher.Market.Histories.{DayHistory, validate_daily}
use job_time_stock_watcher.Market.Minutes.{RawMinute, MinuteHistory, validate_minutes}
use job_time_stock_watcher.Market.Minutes.Grouping.{validate_pair}
use job_time_stock_watcher.Selection.{
  Descriptor, Input, ExecuteError, history_identity, raw_identity, raw_missing, bad_history,
  bad_minutes, mixed_snapshot, duplicate_period, minutes_not_final,
}

abbrev pub has_code : List Text → Text → Bool
has_code xs x = any (λ y. text_eq y x) xs

-- The periods after the daily one are 5, or 30 and 5.
abbrev pub is_daily : List Text → Bool
is_daily (day ∷ []) = text_eq day (codes "day")
is_daily _ = false

abbrev pub is_legacy : List Text → Bool
is_legacy (day ∷ five ∷ []) = text_eq day (codes "day") && text_eq five (codes "5")
is_legacy _ = false

abbrev pub is_minute : List Text → Bool
is_minute (day ∷ half ∷ five ∷ []) =
    text_eq day (codes "day") && text_eq half (codes "30") && text_eq five (codes "5")
is_minute _ = false

unfoldable pub is_supported : Descriptor → Input → Bool
unfolding text_eq
is_supported d in_ =
    not (is_empty d.id)
    && d.version == 1
    && (is_daily d.periods || is_legacy d.periods || is_minute d.periods)
    && (is_empty in_.minutes || is_legacy d.periods || is_minute d.periods)
    && text_eq d.adjust in_.config.daily_adjust
    && d.final_only
    && text_eq d.missing_policy (codes "exclude")

abbrev pub allowed_periods : List Text → List ℕ
allowed_periods [] = []
allowed_periods (p ∷ ps) =
    let rest = allowed_periods ps in
    if text_eq p (codes "5")
    then 5 ∷ rest
    else if text_eq p (codes "15")
    then 15 ∷ rest
    else if text_eq p (codes "30")
    then 30 ∷ rest
    else if text_eq p (codes "60")
    then 60 ∷ rest
    else rest

abbrev pub periods_of : Descriptor → List ℕ
periods_of d = elim d.periods [ [] ↦ [] | _ ∷ ps ↦ allowed_periods ps ]

abbrev pub codes_of : List DayHistory → List Text
codes_of [] = []
codes_of (h ∷ hs) = h.code ∷ codes_of hs

-- The histories are of different allowed stocks, none of which was seen, and adjusted so.
unfoldable pub identities_fit : List Text → Text → List Text → List DayHistory → Bool
unfolding text_eq
identities_fit allowed adjust seen [] = true
identities_fit allowed adjust seen (h ∷ hs) =
    has_code allowed h.code
    && not (has_code seen h.code)
    && text_eq h.adjust adjust
    && identities_fit allowed adjust (h.code ∷ seen) hs

abbrev pub all_executable : List Text → List Text → Bool
all_executable execution [] = true
all_executable execution (c ∷ cs) = has_code execution c && all_executable execution cs

unfoldable pub histories_fit : Text → List DayHistory → Bool
unfolding validate_daily text_eq
histories_fit as_of [] = true
histories_fit as_of (h ∷ hs) =
    text_eq h.as_of as_of && not (is_some (validate_daily h)) && histories_fit as_of hs

abbrev pub find_code : Text → List MinuteHistory → Option MinuteHistory
find_code code [] = none
find_code code (h ∷ hs) =
    let rest = find_code code hs in if text_eq h.code code then some h else rest

abbrev pub find_period : Text → ℕ → List MinuteHistory → Option MinuteHistory
find_period code period [] = none
find_period code period (h ∷ hs) =
    let rest = find_period code period hs in
    if text_eq h.code code && h.period == period then some h else rest

abbrev pub one_snapshot : MinuteHistory → MinuteHistory → Bool
one_snapshot first h =
    text_eq first.source h.source
    && text_eq first.adjust h.adjust
    && text_eq first.volume_unit h.volume_unit
    && first.base_period == h.base_period
    && first.fetched_at == h.fetched_at

abbrev pub fits_first : Option MinuteHistory → MinuteHistory → Bool
fits_first none h = true
fits_first (some first) h = one_snapshot first h

abbrev pub bars_final : Text → List RawMinute → Bool
bars_final as_of [] = true
bars_final as_of (b ∷ bs) =
    b.final && not (text_ltb as_of (date_text (b.end / 86400))) && bars_final as_of bs

-- `seen` are the histories before, the first one first.
unfoldable pub check_minute_set :
    List Text → List ℕ → Text → List MinuteHistory → List MinuteHistory → Option ExecuteError
unfolding validate_minutes text_eq text_ltb date_text
check_minute_set available periods as_of seen [] = none
check_minute_set available periods as_of seen (h ∷ hs) =
    first_error
      (unless
        (has_code available h.code
          && any (λ p. p == h.period) periods
          && not (is_some (validate_minutes h)))
        bad_minutes)
      (first_error (unless (fits_first (find_code h.code seen) h) mixed_snapshot) (
        first_error (unless (not (is_some (find_period h.code h.period seen))) duplicate_period) (
          first_error (unless (bars_final as_of h.bars) minutes_not_final)
            (check_minute_set available periods as_of (seen ++ (h ∷ [])) hs))))

abbrev pub pair_fits : Option MinuteHistory → Option MinuteHistory → Bool
pair_fits (some base) (some derived) = not (is_some (validate_pair base derived))
pair_fits none _ = true
pair_fits (some _) none = true

-- The stocks of the histories, one of which may be visited again.
unfoldable pub pairs_fit : List MinuteHistory → List MinuteHistory → Bool
unfolding validate_pair text_eq
pairs_fit all_minutes [] = true
pairs_fit all_minutes (h ∷ hs) =
    pair_fits (find_period h.code 5 all_minutes) (find_period h.code 30 all_minutes)
    && pairs_fit all_minutes hs

-- `i` is the input with its configuration made safe, `frozen` its copy.
unfoldable pub check_input : Descriptor → Input → Input → Option ExecuteError
unfolding identities_fit histories_fit check_minute_set pairs_fit
check_input d i frozen =
    let available = codes_of frozen.histories in
    let execution = codes_of frozen.raw in
    first_error
      (unless (identities_fit i.config.stocks d.adjust [] frozen.histories) history_identity)
      (first_error
        (unless (identities_fit i.config.stocks (codes "none") [] frozen.raw) raw_identity)
        (first_error (unless (not d.raw_required || all_executable execution available) raw_missing)
          (first_error (unless (histories_fit i.as_of (frozen.histories ++ frozen.raw)) bad_history)
            (first_error (check_minute_set available (periods_of d) i.as_of [] frozen.minutes)
              (unless (pairs_fit frozen.minutes frozen.minutes) mixed_snapshot)))))
