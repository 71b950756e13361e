-- ===== src/Market/Health.antt =====
-- internal/market/resilience.go: the health of a provider and how its answers change it. An instant is
-- a number and 0 is Go's zero time; the two settings are not negative.
pub mod Probing
pub mod Cooldown
use job_time_stock_watcher.Base.{
  ℕ, zero, suc, ◌+◌, Bool, true, false, ◌||◌, List, [], ◌∷◌, Option, none, some, Text, Map, lookup,
  insert, ltb, leb, ◌==◌, if◌then◌else◌,
}
use job_time_stock_watcher.Market.{
  Failure, retryable, ProviderError, failure, data_error, SourceError, provider, all_failed,
  canceled, deadline_exceeded, storage,
}

pub record ProviderHealth : Type 0 where
  pub failures : ℕ
  pub retry_at : ℕ
  pub probing : Bool

abbrev pub healthy : ProviderHealth
healthy = record { failures = 0; retry_at = 0; probing = false }

pub record Settings : Type 0 where
  pub failure_threshold : ℕ
  pub failure_cooldown : ℕ

abbrev pub threshold : Settings → ℕ
threshold s = if s.failure_threshold == 0 then 3 else s.failure_threshold

-- The unit is a second.
abbrev pub cooldown : Settings → ℕ
cooldown s = if s.failure_cooldown == 0 then 300 else s.failure_cooldown

-- Whether a provider of known health may be asked, and its health after.
unfoldable pub grant : ℕ → ProviderHealth → Bool × ProviderHealth
grant now h =
    if h.retry_at == 0
    then (true, h)
    else if h.probing || ltb now h.retry_at
    then (false, h)
    else (true, record h { probing = true })

unfoldable pub available : Text → ℕ → Map ProviderHealth → Bool × Map ProviderHealth
unfolding grant
available name now health = elim (lookup name health) [
  | none ↦ (true, insert name healthy health)
  | some h ↦ let (granted, h') = grant now h in (granted, insert name h' health)
]

abbrev pub fail_health : Settings → ℕ → ProviderHealth → ProviderHealth
fail_health settings now h = record {
  failures = suc h.failures;
  retry_at =
      if leb (threshold settings) (suc h.failures) then now + cooldown settings else h.retry_at;
  probing = false;
}

-- The health after an answer: `none` is success.
unfoldable pub settle : Settings → ℕ → Option SourceError → ProviderHealth → ProviderHealth
settle settings now none h = healthy
settle settings now (some (provider (failure f))) h =
    if retryable f then fail_health settings now h else healthy
settle settings now (some (provider (data_error _))) h = healthy
settle settings now (some _) h = record h { probing = false }

-- `none` is the dereference of a missing health.
unfoldable pub record_result :
    Settings → Text → ℕ → Option SourceError → Map ProviderHealth → Option (Map ProviderHealth)
unfolding settle
record_result settings name now err health = elim (lookup name health) [
  | none ↦ none
  | some h ↦ some (insert name (settle settings now err h) health)
]
