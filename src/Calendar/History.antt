-- ===== src/Calendar/History.antt =====
-- internal/calendar/history.go: a frozen window of the exchange calendar, with the digest that guards
-- it. A date text is the day that `time.Parse` reads in it, or nothing, as in Calendar. The digest is a
-- hash of the JSON of the fields, and both are library code: `hash` stands for them. The three errors of
-- a loop over the days (no date, outside of the window, out of order) are one error here, since which
-- of them `NewHistory` meets first depends on how texts that are no dates are sorted.
pub mod Valid
pub mod Making
pub mod Coverage
pub mod Dataset
pub mod Fetching
use job_time_stock_watcher.Base.{
  ℕ, Bool, true, false, not, ◌&&◌, ◌||◌, ◌⊎◌, inl, inr, List, [], ◌∷◌, Option, none, some, Text,
  text_eq, is_empty, all, ltb, leb, ◌==◌, if◌then◌else◌, sort_by, is_trimmed,
}

-- `days` is none where the slice is nil.
pub record History : Type 0 where
  pub version : ℕ
  pub source : Text
  pub from : Option ℕ
  pub through : Option ℕ
  pub days : Option (List (Option ℕ))
  pub fetched_at : ℕ
  pub digest : Text

pub data HistoryError : Type 0 where
  invalid_start invalid_end no_source no_fetch_time bad_days wrong_schema no_days wrong_digest :
      HistoryError

abbrev pub history_version : ℕ
history_version = 1

unfoldable pub validate_range : Option ℕ → Option ℕ → Option HistoryError
validate_range none through = some invalid_start
validate_range (some first) none = some invalid_end
validate_range (some first) (some last) = if ltb last first then some invalid_end else none

abbrev pub is_source : Text → Bool
is_source s = not (is_empty s) && is_trimmed s

-- The day of a text that is a date; no other text is read.
abbrev pub day_in : Option ℕ → ℕ
day_in none = 0
day_in (some d) = d

-- The days of texts that are all dates.
abbrev pub days_in : List (Option ℕ) → Option (List ℕ)
days_in [] = some []
days_in (none ∷ ts) = none
days_in (some d ∷ ts) = elim (days_in ts) [ none ↦ none | some ds ↦ some (d ∷ ds) ]

abbrev pub texts_of : List ℕ → List (Option ℕ)
texts_of [] = []
texts_of (d ∷ ds) = some d ∷ texts_of ds

abbrev pub known_days : Option (List ℕ) → List ℕ
known_days none = []
known_days (some ds) = ds

-- The days of a history whose days are dates.
abbrev pub listed_days : History → List ℕ
listed_days h = elim (h.days) [ none ↦ [] | some ts ↦ known_days (days_in ts) ]

abbrev pub is_inside : ℕ → ℕ → ℕ → Bool
is_inside from through d = leb from d && leb d through

-- Whether a test holds of every two entries that follow each other.
abbrev pub chained : (ℕ → ℕ → Bool) → List ℕ → Bool
chained test [] = true
chained test (x ∷ []) = true
chained test (x ∷ y ∷ ys) = test x y && chained test (y ∷ ys)

module _ (hash : ℕ → Text → ℕ → ℕ → List ℕ → Text) where
  abbrev pub digest_of : History → Text
  digest_of h = hash h.version h.source (day_in h.from) (day_in h.through) (listed_days h)

  abbrev pub stamped : History → History
  stamped h = record h { digest = digest_of h }

  abbrev pub history_of : Text → Option ℕ → Option ℕ → List ℕ → ℕ → History
  history_of source from through normalized fetched_at = record {
    version = history_version;
    source = source;
    from = from;
    through = through;
    days = some (texts_of normalized);
    fetched_at = fetched_at;
    digest = [];
  }

  abbrev pub accept_days : Text → Option ℕ → Option ℕ → ℕ → List ℕ → HistoryError ⊎ History
  accept_days source from through fetched_at normalized =
      if all (is_inside (day_in from) (day_in through)) normalized
        && chained (λ x y. not (y == x)) normalized
      then inr (stamped (history_of source from through normalized fetched_at))
      else inl bad_days

  unfoldable pub new_history :
      Text → Option ℕ → Option ℕ → List (Option ℕ) → ℕ → HistoryError ⊎ History
  unfolding validate_range
  new_history source from through days fetched_at = elim (validate_range from through) [
    | some e ↦ inl e
    | none ↦
        if not (is_source source)
        then inl no_source
        else if fetched_at == 0
        then inl no_fetch_time
        else elim (days_in days) [
          | none ↦ inl bad_days
          | some ds ↦ accept_days source from through fetched_at (sort_by ltb ds)
        ]
  ]

  -- The guards on the days and the digest.
  abbrev pub validate_days : History → Option (List (Option ℕ)) → Option HistoryError
  validate_days h none = some no_days
  validate_days h (some ts) = elim (days_in ts) [
    | none ↦ some bad_days
    | some ds ↦
        if not (all (is_inside (day_in h.from) (day_in h.through)) ds && chained ltb ds)
        then some bad_days
        else if is_empty h.digest || not (text_eq h.digest (digest_of h))
        then some wrong_digest
        else none
  ]

  unfoldable pub validate_history : History → Option HistoryError
  unfolding validate_range
  validate_history h =
      if not (h.version == history_version)
      then some wrong_schema
      else elim (validate_range h.from h.through) [
        | some e ↦ some e
        | none ↦
            if not (is_source h.source)
            then some no_source
            else if h.fetched_at == 0
            then some no_fetch_time
            else validate_days h h.days
      ]
