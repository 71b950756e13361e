-- ===== src/Calendar/History/Dataset.antt =====
-- internal/calendar/history.go: a collection of frozen windows. The maps from days and from sources to
-- true are lists without repeated entries.
pub mod Covering
pub mod Agreeing
pub mod Seen
pub mod Listing
pub mod Naming
pub mod Ascending
pub mod Freezing
use job_time_stock_watcher.Base.{
  ℕ, Bool, true, false, not, ◌&&◌, ◌||◌, ◌⊎◌, inl, inr, List, [], ◌∷◌, ◌++◌, Option, none, some,
  Text, codes, text_eq, text_ltb, any, keep, is_empty, ltb, leb, ◌==◌, if◌then◌else◌, sort_by,
}
use job_time_stock_watcher.Calendar.History.{
  History, HistoryError, validate_range, validate_history, new_history, day_in, listed_days,
  is_inside, texts_of,
}
use job_time_stock_watcher.Calendar.History.Coverage.{Window, Coverage, cover}

pub data DatasetError : Type 0 where
  bad : HistoryError → DatasetError
  disagree : ℕ → DatasetError
  not_covered : Coverage → DatasetError
  no_window : DatasetError

abbrev pub window_of : History → Window
window_of h = record {
  source = h.source;
  from = day_in h.from;
  through = day_in h.through;
  days = listed_days h;
  fetched_at = h.fetched_at;
}

abbrev pub windows_of : List History → List Window
windows_of [] = []
windows_of (h ∷ hs) = window_of h ∷ windows_of hs

abbrev pub has_day : List ℕ → ℕ → Bool
has_day days d = any (λ x. x == d) days

-- The days of a range in one list and not in the other.
abbrev pub lacking : ℕ → ℕ → List ℕ → List ℕ → List ℕ
lacking from through left right = keep (λ d. is_inside from through d && not (has_day right d)) left

abbrev pub first : List ℕ → Option ℕ
first [] = none
first (d ∷ ds) = some d

-- The first day that both windows cover and only one of them has.
unfoldable pub disagreement : Window → Window → Option ℕ
disagreement v w =
    let from = if ltb v.from w.from then w.from else v.from in
    let through = if ltb w.through v.through then w.through else v.through in
    if ltb through from
    then none
    else first
        (sort_by ltb (lacking from through v.days w.days ++ lacking from through w.days v.days))

unfoldable pub disagreement_with : Window → List Window → Option ℕ
unfolding disagreement
disagreement_with v [] = none
disagreement_with v (w ∷ ws) =
    let rest = disagreement_with v ws in elim (disagreement v w) [ some d ↦ some d | none ↦ rest ]

unfoldable pub validate_consistency : List Window → Option ℕ
unfolding disagreement_with
validate_consistency [] = none
validate_consistency (w ∷ ws) =
    let rest = validate_consistency ws in
    elim (disagreement_with w ws) [ some d ↦ some d | none ↦ rest ]

abbrev pub add_days : ℕ → ℕ → List ℕ → List ℕ → List ℕ
add_days from through seen [] = seen
add_days from through seen (d ∷ ds) =
    add_days from through
      (if is_inside from through d && not (has_day seen d) then d ∷ seen else seen) ds

abbrev pub seen_days : ℕ → ℕ → List ℕ → List Window → List ℕ
seen_days from through seen [] = seen
seen_days from through seen (w ∷ ws) = seen_days from through (add_days from through seen w.days) ws

abbrev pub is_apart : ℕ → ℕ → Window → Bool
is_apart from through w = ltb w.through from || ltb through w.from

abbrev pub sources_in : ℕ → ℕ → List Text → List Window → List Text
sources_in from through seen [] = seen
sources_in from through seen (w ∷ ws) =
    sources_in from through
      (if is_apart from through w || any (λ s. text_eq s w.source) seen
        then seen
        else w.source ∷ seen)
      ws

abbrev pub latest_fetch : ℕ → ℕ → ℕ → List Window → ℕ
latest_fetch from through latest [] = latest
latest_fetch from through latest (w ∷ ws) =
    latest_fetch from through
      (if is_apart from through w
        then latest
        else if ltb latest w.fetched_at
        then w.fetched_at
        else latest)
      ws

-- `strings.Join(names, "+")`.
abbrev pub join_names : List Text → Text
join_names [] = []
join_names (s ∷ []) = s
join_names (s ∷ t ∷ ss) = s ++ b'+' ∷ join_names (t ∷ ss)

module _ (hash : ℕ → Text → ℕ → ℕ → List ℕ → Text) where
  abbrev pub first_invalid : List History → Option HistoryError
  first_invalid [] = none
  first_invalid (h ∷ hs) =
      let rest = first_invalid hs in
      elim (validate_history hash h) [ some e ↦ some e | none ↦ rest ]

  unfoldable pub coverage : List History → Option ℕ → Option ℕ → DatasetError ⊎ Coverage
  unfolding validate_history validate_consistency cover
  coverage d from through = elim (validate_range from through) [
    | some e ↦ inl (bad e)
    | none ↦ elim (first_invalid d) [
      | some e ↦ inl (bad e)
      | none ↦ elim (validate_consistency (windows_of d)) [
        | some day ↦ inl (disagree day)
        | none ↦ inr (cover (windows_of d) (day_in from) (day_in through))
      ]
    ]
  ]

  unfoldable pub dataset_trading_days : List History → Option ℕ → Option ℕ → DatasetError ⊎ List ℕ
  unfolding coverage
  dataset_trading_days d from through = elim (coverage d from through) [
    | inl e ↦ inl e
    | inr c ↦
        if not c.complete
        then inl (not_covered c)
        else inr (sort_by ltb (seen_days (day_in from) (day_in through) [] (windows_of d)))
  ]

  abbrev pub frozen : HistoryError ⊎ History → DatasetError ⊎ History
  frozen (inl e) = inl (bad e)
  frozen (inr h) = inr h

  unfoldable pub freeze : List History → Option ℕ → Option ℕ → DatasetError ⊎ History
  unfolding dataset_trading_days new_history
  freeze d from through = elim (dataset_trading_days d from through) [
    | inl e ↦ inl e
    | inr days ↦
        let names =
          sort_by text_ltb (sources_in (day_in from) (day_in through) [] (windows_of d)) in
        if is_empty names
        then inl no_window
        else frozen (
            new_history hash (join_names names) from through (texts_of days)
              (latest_fetch (day_in from) (day_in through) 0 (windows_of d)))
  ]
