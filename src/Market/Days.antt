-- ===== src/Market/Days.antt =====
-- internal/market/sources.go: `FetchTradingDays`, which asks the calendar providers in order, and
-- `classifyAttemptError`. The loop is that of `Attempt` but for what it does with an answer. Every turn
-- adds a failure, so that there is none at the end exactly where there are no providers.
pub mod Listing
pub mod Deadlines
use job_time_stock_watcher.Base.{
  ℕ, Bool, true, false, not, ◌&&◌, ◌||◌, ◌⊎◌, inl, inr, List, [], ◌∷◌, Option, none, some, Text,
  codes, text_ltb, is_empty, sort_by, Map, if◌then◌else◌,
}
use job_time_stock_watcher.Market.{
  Failure, ProviderError, failure, data_error, SourceError, provider, canceled, deadline_exceeded,
}
use job_time_stock_watcher.Market.Health.{ProviderHealth, Settings}
use job_time_stock_watcher.Market.Attempts.{
  Turn, Result, answered, stopped, panicked, Verdict, accept, stop, next, attempt_loop,
}

-- `caller_over` and `attempt_over` are whether the two contexts are over after the request.
pub record DaysTurn : Type 0 where
  pub name : Text
  pub interrupted : Option SourceError
  pub asked_at : ℕ
  pub answer : List Text ⊎ SourceError
  pub caller_over : Bool
  pub attempt_over : Bool
  pub answered_at : ℕ
  pub interrupted_after : Option SourceError

abbrev pub is_deadline : SourceError → Bool
is_deadline deadline_exceeded = true
is_deadline _ = false

abbrev pub is_canceled : SourceError → Bool
is_canceled canceled = true
is_canceled _ = false

abbrev pub failure_of : Text → SourceError
failure_of kind = provider (failure (record { status = 0; kind = kind; reason = [] }))

-- `attempt_over` is whether the attempt ran into its deadline.
unfoldable pub classify : Bool → Bool → SourceError → SourceError
classify caller_over attempt_over e =
    if caller_over
    then e
    else if is_deadline e || attempt_over
    then failure_of (codes "attempt_timeout")
    else if is_canceled e
    then failure_of (codes "attempt_interrupted")
    else e

abbrev pub classify_answer : DaysTurn → List Text ⊎ SourceError → List Text ⊎ SourceError
classify_answer t (inl days) = inl days
classify_answer t (inr e) = inr (classify t.caller_over t.attempt_over e)

abbrev pub classified : DaysTurn → Turn (List Text)
classified t = record {
  name = t.name;
  interrupted = t.interrupted;
  asked_at = t.asked_at;
  answer = classify_answer t t.answer;
  answered_at = t.answered_at;
  interrupted_after = t.interrupted_after;
}

abbrev pub all_classified : List DaysTurn → List (Turn (List Text))
all_classified [] = []
all_classified (t ∷ ts) = classified t ∷ all_classified ts

-- Each day is in the range and after the one before it.
abbrev pub days_fit : Text → Text → Text → List Text → Bool
days_fit start end previous [] = true
days_fit start end previous (d ∷ ds) =
    not (text_ltb d start || text_ltb end d || not (text_ltb previous d)) && days_fit start end d ds

unfoldable pub judge_days : Text → Text → Text → List Text ⊎ SourceError → Verdict (List Text)
judge_days start end name (inl days) =
    let sorted = sort_by text_ltb days in
    if is_empty sorted
    then next (data_error (codes "empty_calendar"))
    else if days_fit start end [] sorted
    then accept sorted
    else next (data_error (codes "invalid_calendar_days"))
judge_days start end name (inr (provider e)) = next e
judge_days start end name (inr e) = stop e

unfoldable pub fetch_trading_days :
    Settings
    → Map ProviderHealth
    → Text
    → Text
    → List DaysTurn
    → Map ProviderHealth × Result (List Text)
unfolding attempt_loop judge_days classify
fetch_trading_days settings health start end turns =
    if is_empty turns
    then (health, stopped (provider (data_error (codes "calendar_source_unavailable"))))
    else attempt_loop (judge_days start end) settings health [] (all_classified turns)
