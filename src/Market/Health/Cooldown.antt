-- ===== src/Market/Health/Cooldown.antt =====
-- When a provider cools down, and when it recovers.
use job_time_stock_watcher.Base.{
  ℕ, suc, ◌+◌, ◌<◌, ◌≤◌, true, false, Option, none, some, ◌≡◌, ◌≢◌, arith, ◌⊎◌, ◌↔◌,
}
use job_time_stock_watcher.Market.{
  Failure, retryable, failure, data_error, SourceError, provider, all_failed, canceled,
  deadline_exceeded, storage,
}
use job_time_stock_watcher.Market.Health.{
  ProviderHealth, Settings, threshold, cooldown, grant, settle,
}

-- A provider cools down only after as many failures in a row as the threshold, and is only probed
-- while it cools down.
abbrev pub IsHealth : Settings → ProviderHealth → Type 0
IsHealth settings h =
    ((h.retry_at ≡ 0) ⊎ (threshold settings ≤ h.failures))
    × ((h.probing ≡ false) ⊎ (h.retry_at ≢ 0))

-- Every answer and every request keep the health of a provider well formed.
pub settle-IsHealth :
    (settings : Settings) (now : ℕ) (err : Option SourceError) (h : ProviderHealth)
    → IsHealth settings h
    → IsHealth settings (settle settings now err h) × IsHealth settings (grant now h).1
unfolding settle grant
settle-IsHealth settings now none h k = ground (arith, k)
settle-IsHealth settings now (some (provider (failure f))) h k =
    let long : 0 < cooldown settings = ground arith in ground (arith, k, long)
settle-IsHealth settings now (some (provider (data_error _))) h k = ground (arith, k)
settle-IsHealth settings now (some (all_failed _)) h k = ground (arith, k)
settle-IsHealth settings now (some canceled) h k = ground (arith, k)
settle-IsHealth settings now (some deadline_exceeded) h k = ground (arith, k)
settle-IsHealth settings now (some storage) h k = ground (arith, k)

-- After a retryable failure at time `at`, a provider of well-formed health may be asked at `later`
-- exactly if it has not yet failed as often in a row as the threshold, or the cooldown is over.
pub grant-settle_iff :
    (settings : Settings) (at later : ℕ) (f : Failure) (h : ProviderHealth)
    → IsHealth settings h
    → retryable f ≡ true
    → ((grant later (settle settings at (some (provider (failure f))) h)).0 ≡ true)
      ↔ ((suc h.failures < threshold settings) ⊎ (at + cooldown settings ≤ later))
unfolding settle grant
grant-settle_iff settings at later f h k r =
    let long : 0 < cooldown settings = ground arith in rw r (ground (arith, k, long))
