-- ===== src/Tests/Market.antt =====
-- Two providers, the first of which fails.
use Prim.Native.String.{String}
use job_time_stock_watcher.Base.{
  ℕ, ◌+◌, ◌<◌, ◌≤◌, suc, ◌⊎◌, inl, inr, true, false, List, [], ◌∷◌, none, some, ◌≡◌, ◌↔◌, refl,
  arith, Text, codes, text_eq, text_ltb, sort_by, In, subst, sym, lookup, insert,
}
use job_time_stock_watcher.Market.{Failure, failure, provider, all_failed, canceled, is_isolatable}
use job_time_stock_watcher.Market.Health.{
  ProviderHealth, Settings, threshold, cooldown, grant, settle, available, record_result,
}
use job_time_stock_watcher.Market.Health.Probing.{
  Call, ask, tell, granted_count, granted_count_probed,
}
use job_time_stock_watcher.Market.Health.Cooldown.{IsHealth, grant-settle_iff}
use job_time_stock_watcher.Market.Attempts.{History, Turn, answered, stopped, cooling, attempt}
use job_time_stock_watcher.Market.Statuses.{
  SessionState, traded, suspended, unknown, StatusAnswer, MergedStatus, add_answers, verdict,
  merge_windows,
}
use job_time_stock_watcher.Market.Statuses.Agreement.{agreed, states_of, merge_windows-agreed}
use job_time_stock_watcher.Market.Windows.{
  SessionRow, StatusWindow, base_name, validate_window, valid_code, fetch_status,
}
use job_time_stock_watcher.Market.Days.{DaysTurn, fetch_trading_days}
use job_time_stock_watcher.Market.Days.Listing.{Fetched, fetch_trading_days-Fetched}
use job_time_stock_watcher.Market.Attempts.Answers.{Explains, attempt-Explains}

abbrev defaults : Settings
defaults = record { failure_threshold = 0; failure_cooldown = 0 }

abbrev busy : Failure
busy = record { status = 503; kind = codes "http"; reason = [] }

abbrev sina : Text
sina = codes "sina"

abbrev tencent : Text
tencent = codes "tencent"

abbrev failing : Turn (History ℕ)
failing = record {
  name = sina;
  interrupted = none;
  asked_at = 1000;
  answer = inr (provider (failure busy));
  answered_at = 1001;
  interrupted_after = none;
}

abbrev serving : Turn (History ℕ)
serving = record {
  name = tencent;
  interrupted = none;
  asked_at = 1001;
  answer = inl (record { source = tencent; content = 7 });
  answered_at = 1002;
  interrupted_after = none;
}

-- Two failures so far.
abbrev shaky : ProviderHealth
shaky = record { failures = 2; retry_at = 0; probing = false }

abbrev probed : ProviderHealth
probed = record { failures = 3; retry_at = 1300; probing = true }

attempt_falls_back :
    (attempt defaults [] (failing ∷ serving ∷ [])).1
    ≡ answered (record { source = tencent; content = 7 })
unfolding attempt lookup available record_result insert text_eq
attempt_falls_back = refl

third_failure_cools :
    lookup sina (attempt defaults ((sina, shaky) ∷ []) (failing ∷ serving ∷ [])).0
    ≡ some (record { failures = 3; retry_at = 1301; probing = false })
unfolding attempt lookup available record_result insert text_eq
third_failure_cools = refl

cooldown_is_skipped :
    (attempt defaults ((sina, probed) ∷ []) (failing ∷ [])).1
    ≡ stopped (all_failed ((sina, cooling) ∷ []))
unfolding attempt lookup available record_result insert text_eq
cooldown_is_skipped = refl

cooldown_is_not_isolatable : is_isolatable (all_failed ((sina, cooling) ∷ [])) ≡ false
unfolding is_isolatable
cooldown_is_not_isolatable = refl

attempt-Explains_example :
    Explains defaults
      ((sina, shaky) ∷ [])
      (failing ∷ serving ∷ [])
      (attempt defaults ((sina, shaky) ∷ []) (failing ∷ serving ∷ [])).1
attempt-Explains_example = attempt-Explains defaults ((sina, shaky) ∷ []) (failing ∷ serving ∷ [])

abbrev calls : List Call
calls = ask sina 1400 ∷ ask tencent 1401 ∷ tell tencent 1402 none ∷ ask sina 9000 ∷ []

granted_count_probed_example : granted_count defaults sina calls ((sina, probed) ∷ []) ≡ 0
unfolding text_eq
granted_count_probed_example =
    granted_count_probed defaults sina calls ((sina, probed) ∷ []) probed (unfold lookup in refl)
      (omega arith) refl (tt, (tt, (refl, (tt, tt))))

shaky-IsHealth : IsHealth defaults shaky
shaky-IsHealth = (inl refl, inl refl)

grant-settle_iff_example :
    ((grant 1200 (settle defaults 1000 (some (provider (failure busy))) shaky)).0 ≡ true)
    ↔ ((suc shaky.failures < threshold defaults) ⊎ (1000 + cooldown defaults ≤ 1200))
grant-settle_iff_example = grant-settle_iff defaults 1000 1200 busy shaky shaky-IsHealth refl

abbrev monday : Text
monday = codes "2026-11-23"

abbrev says : Text → SessionState → StatusAnswer
says name state = record {
  name = name;
  statuses = record { date = monday; state = state } ∷ [];
  full = true;
}

abbrev row : SessionState → String → MergedStatus
row state detail = record {
  date = monday;
  state = state;
  source = codes "sina+tencent";
  detail = codes detail;
}

conflict_is_unknown :
    (merge_windows (says tencent traded ∷ says sina suspended ∷ [])).statuses
    ≡ row unknown "status_conflict" ∷ []
unfolding merge_windows add_answers lookup insert text_eq sort_by text_ltb verdict
conflict_is_unknown = refl

both_suspended :
    (merge_windows (says tencent suspended ∷ says sina suspended ∷ [])).statuses
    ≡ row suspended "" ∷ []
unfolding merge_windows add_answers lookup insert text_eq sort_by text_ltb verdict
both_suspended = refl

merge_windows-agreed_example :
    unknown ≡ agreed (states_of monday (says tencent traded ∷ says sina suspended ∷ []))
merge_windows-agreed_example =
    merge_windows-agreed (says tencent traded ∷ says sina suspended ∷ [])
      (row unknown "status_conflict")
      (subst (In (row unknown "status_conflict")) (sym conflict_is_unknown) (inl refl))

abbrev slow_calendar : DaysTurn
slow_calendar = record {
  name = sina;
  interrupted = none;
  asked_at = 1000;
  answer = inr canceled;
  caller_over = false;
  attempt_over = true;
  answered_at = 1060;
  interrupted_after = none;
}

abbrev calendar : DaysTurn
calendar = record {
  name = tencent;
  interrupted = none;
  asked_at = 1060;
  answer = inl (codes "2024-01-03" ∷ codes "2024-01-02" ∷ []);
  caller_over = false;
  attempt_over = false;
  answered_at = 1061;
  interrupted_after = none;
}

calendar_falls_back :
    (fetch_trading_days defaults []
      (codes "2024-01-01")
      (codes "2024-01-05")
      (slow_calendar ∷ calendar ∷ [])).1
    ≡ answered (codes "2024-01-02" ∷ codes "2024-01-03" ∷ [])
unfolding fetch_trading_days lookup available record_result insert text_eq text_ltb sort_by
calendar_falls_back = refl

fetch_trading_days-Fetched_example :
    Fetched
      (codes "2024-01-01")
      (codes "2024-01-05")
      defaults
      []
      (slow_calendar ∷ calendar ∷ [])
      (fetch_trading_days defaults []
        (codes "2024-01-01")
        (codes "2024-01-05")
        (slow_calendar ∷ calendar ∷ [])).1
fetch_trading_days-Fetched_example =
    fetch_trading_days-Fetched (codes "2024-01-01") (codes "2024-01-05") defaults []
      (slow_calendar ∷ calendar ∷ [])

abbrev stock_code : Text
stock_code = codes "sh600519"

abbrev halted : SessionRow
halted = record {
  code = stock_code;
  date = codes "2024-01-03";
  state = some suspended;
  source = sina;
  fetched_at = 900;
}

abbrev halt_window : StatusWindow
halt_window = record {
  code = stock_code;
  start = codes "2024-01-01";
  end = codes "2024-01-05";
  source = sina;
  fetched_at = 900;
  rows = halted ∷ [];
  full = false;
}

abbrev status_turn : Text → StatusWindow → Turn StatusWindow
status_turn name w = record {
  name = name;
  interrupted = none;
  asked_at = 1000;
  answer = inl w;
  answered_at = 1001;
  interrupted_after = none;
}

shanghai_code : valid_code stock_code ≡ true
unfolding valid_code
shanghai_code = refl

beijing_code : valid_code (codes "bj430047") ≡ false
unfolding valid_code
beijing_code = refl

repeated_day :
    validate_window (record halt_window { rows = halted ∷ halted ∷ [] })
    ≡ some (codes "invalid session status")
unfolding validate_window text_eq text_ltb
repeated_day = refl

suffix_is_cut : base_name (codes "sina_status") ≡ sina
suffix_is_cut = refl

-- The second source does not name itself.
one_window_is_merged :
    (fetch_status defaults stock_code [] (
      status_turn (codes "sina_status") halt_window
      ∷ status_turn (codes "tencent_status") halt_window
      ∷ [])).1
    ≡ answered (
        merge_windows (
          record {
            name = sina;
            statuses = record { date = codes "2024-01-03"; state = suspended } ∷ [];
            full = false;
          }
          ∷ []))
unfolding fetch_status lookup available record_result insert text_eq text_ltb sort_by
one_window_is_merged = refl
