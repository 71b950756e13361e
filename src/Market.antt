-- ===== src/Market.antt =====
-- internal/market: the errors of the market providers (market.go, sources.go). An error is what
-- `errors.As` and `errors.Is` find in it; an HTTP status is a natural number. A provider's history is
-- any type.
pub mod Health
pub mod Attempts
pub mod Days
pub mod Windows
pub mod Statuses
pub mod Minutes
pub mod Histories
use job_time_stock_watcher.Base.{
  ℕ, Bool, true, false, ◌&&◌, ◌||◌, List, [], ◌∷◌, Text, leb, ◌==◌, is_empty, not, all,
}

pub record Failure : Type 0 where
  pub status : ℕ
  pub kind : Text
  pub reason : Text

abbrev pub retryable : Failure → Bool
retryable f = f.status == 0 || f.status == 408 || f.status == 429 || leb 500 f.status

-- What one provider did wrong: a `Failure` or a `DataError`.
pub data ProviderError : Type 0 where
  failure : Failure → ProviderError
  data_error : Text → ProviderError

pub data SourceError : Type 0 where
  provider : ProviderError → SourceError
  all_failed : List (Text × ProviderError) → SourceError
  canceled deadline_exceeded storage : SourceError

abbrev isolatable_failure : ProviderError → Bool
isolatable_failure (failure f) = not (retryable f)
isolatable_failure (data_error _) = true

unfoldable pub is_isolatable : SourceError → Bool
is_isolatable (provider e) = isolatable_failure e
is_isolatable (all_failed es) = not (is_empty es) && all (λ e. isolatable_failure e.1) es
is_isolatable _ = false
