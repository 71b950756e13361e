-- ===== src/Market/Windows.antt =====
-- internal/market/status.go and `FetchStatus` of internal/market/sources.go: the status sources are
-- asked in order, and all valid windows are merged. `valid_code` is the regular expression of
-- `config.ValidCode`, and a state is none where the text is none of the three. The answer of a turn is the one
-- after `classifyAttemptError`.
pub mod Hearing
pub mod Answering
use job_time_stock_watcher.Base.{
  ℕ, Bool, true, false, not, ◌&&◌, ◌||◌, ◌⊎◌, inl, inr, List, [], ◌∷◌, ◌++◌, Option, none, some,
  is_some, Text, codes, text_eq, text_ltb, is_empty, backwards, leb, ◌==◌, Map, if◌then◌else◌,
}
use job_time_stock_watcher.Market.{ProviderError, data_error, SourceError, provider, all_failed}
use job_time_stock_watcher.Market.Health.{ProviderHealth, Settings, available, record_result}
use job_time_stock_watcher.Market.Attempts.{
  Turn, Result, answered, stopped, panicked, Verdict, accept, stop, next, error_of, cooling,
}
use job_time_stock_watcher.Market.Statuses.{
  SessionState, unknown, SessionStatus, StatusAnswer, MergedWindow, merge_windows,
}

pub record SessionRow : Type 0 where
  pub code : Text
  pub date : Text
  pub state : Option SessionState
  pub source : Text
  pub fetched_at : ℕ

pub record StatusWindow : Type 0 where
  pub code : Text
  pub start : Text
  pub end : Text
  pub source : Text
  pub fetched_at : ℕ
  pub rows : List SessionRow
  pub full : Bool

-- The rest of a text after a prefix.
abbrev pub strip_prefix : Text → Text → Option Text
strip_prefix [] s = some s
strip_prefix (p ∷ ps) [] = none
strip_prefix (p ∷ ps) (c ∷ cs) = let rest = strip_prefix ps cs in if p == c then rest else none

-- `strings.TrimSuffix(name, "_status")`.
abbrev pub base_name : Text → Text
base_name name = elim (strip_prefix (backwards (codes "_status")) (backwards name)) [
  | some rest ↦ backwards rest
  | none ↦ name
]

abbrev pub row_fits : StatusWindow → Text → SessionRow → Bool
row_fits w previous r =
    text_eq r.code w.code
    && not (text_ltb r.date w.start)
    && not (text_ltb w.end r.date)
    && text_ltb previous r.date
    && is_some r.state
    && not (is_empty r.source)
    && not (r.fetched_at == 0)

abbrev pub rows_fit : StatusWindow → Text → List SessionRow → Bool
rows_fit w previous [] = true
rows_fit w previous (r ∷ rs) = row_fits w previous r && rows_fit w r.date rs

abbrev is_digit : ℕ → Bool
is_digit c = leb b'0' c && leb c b'9'

-- Of Shanghai (60, 68) or Shenzhen (00, 30), with four digits.
unfoldable pub valid_code : Text → Bool
valid_code (s ∷ m ∷ a ∷ b ∷ c ∷ d ∷ e ∷ f ∷ []) =
    s == b's'
    && (m == b'h' && a == b'6' && (b == b'0' || b == b'8')
        || m == b'z' && (a == b'0' || a == b'3') && b == b'0')
    && is_digit c
    && is_digit d
    && is_digit e
    && is_digit f
valid_code _ = false

abbrev pub metadata_fits : StatusWindow → Bool
metadata_fits w =
    valid_code w.code
    && not (is_empty w.source)
    && not (w.fetched_at == 0)
    && not (is_empty w.start)
    && not (is_empty w.end)
    && not (text_ltb w.end w.start)

unfoldable pub validate_window : StatusWindow → Option Text
unfolding valid_code
validate_window w =
    if not (metadata_fits w)
    then some (codes "invalid status window metadata")
    else if not (rows_fit w [] w.rows)
    then some (codes "invalid session status")
    else none

abbrev pub state_of : Option SessionState → SessionState
state_of none = unknown
state_of (some s) = s

abbrev pub statuses_of : List SessionRow → List SessionStatus
statuses_of [] = []
statuses_of (r ∷ rs) = record { date = r.date; state = state_of r.state } ∷ statuses_of rs

abbrev pub answer_of : Text → StatusWindow → StatusAnswer
answer_of name w = record { name = base_name name; statuses = statuses_of w.rows; full = w.full }

unfoldable pub judge_window : Text → Text → StatusWindow ⊎ SourceError → Verdict StatusAnswer
unfolding validate_window
judge_window code name (inl w) = elim (validate_window w) [
  | some reason ↦ next (data_error reason)
  | none ↦
      if not (text_eq w.code code)
      then next (data_error (codes "status_code_mismatch"))
      else if not (text_eq w.source (base_name name))
      then next (data_error (codes "status_source_mismatch"))
      else accept (answer_of name w)
]
judge_window code name (inr (provider e)) = next e
judge_window code name (inr e) = stop e

-- After the loop.
abbrev pub merge_answers : List (Text × ProviderError) → List StatusAnswer → Result MergedWindow
merge_answers [] [] = stopped (provider (data_error (codes "status_source_unavailable")))
merge_answers (e ∷ es) [] = stopped (all_failed (e ∷ es))
merge_answers failures (a ∷ answers) = answered (merge_windows (a ∷ answers))

unfoldable pub status_loop :
    Settings
    → Text
    → Map ProviderHealth
    → List (Text × ProviderError)
    → List StatusAnswer
    → List (Turn StatusWindow)
    → Map ProviderHealth × Result MergedWindow
unfolding judge_window merge_windows
status_loop settings code health failures answers [] = (health, merge_answers failures answers)
status_loop settings code health failures answers (t ∷ turns) =
    let (granted, health') = available t.name t.asked_at health in
    let skip =
      status_loop settings code health' (failures ++ ((t.name, cooling) ∷ [])) answers turns in
    elim (t.interrupted) [
      | some e ↦ (health, stopped e)
      | none ↦
          if granted
          then elim (record_result settings t.name t.answered_at (error_of t.answer) health') [
            | none ↦ (health', panicked)
            | some health'' ↦ elim (t.interrupted_after) [
              | some e ↦ (health'', stopped e)
              | none ↦ elim (judge_window code t.name t.answer) [
                | accept a ↦ status_loop settings code health'' failures (answers ++ (a ∷ [])) turns
                | stop e ↦ (health'', stopped e)
                | next e ↦
                    status_loop settings code health'' (failures ++ ((t.name, e) ∷ [])) answers
                      turns
              ]
            ]
          ]
          else skip
    ]

unfoldable pub fetch_status :
    Settings
    → Text
    → Map ProviderHealth
    → List (Turn StatusWindow)
    → Map ProviderHealth × Result MergedWindow
unfolding status_loop
fetch_status settings code health turns = status_loop settings code health [] [] turns
