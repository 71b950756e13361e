-- ===== src/Market/Days/Deadlines.antt =====
-- A provider that runs out of its time does not end `FetchTradingDays`.
use job_time_stock_watcher.Base.{
  Bool, false, ◌++◌, ◌||◌, ◌⊎◌, inl, inr, List, [], ◌∷◌, codes, none, Text, Map, ◌≡◌,
}
use job_time_stock_watcher.Market.{ProviderError, SourceError, failure}
use job_time_stock_watcher.Market.Health.{ProviderHealth, Settings}
use job_time_stock_watcher.Market.Attempts.{
  Turn, Result, answered, stopped, panicked, cooling, attempt_loop,
}
use job_time_stock_watcher.Market.Days.{DaysTurn, is_deadline, is_canceled, classified, judge_days}

-- The caller's context is not over before, at or after the turn.
pub record IsLive (t : DaysTurn) : Type 0 where
  pub before : t.interrupted ≡ none
  pub after : t.interrupted_after ≡ none
  pub during : t.caller_over ≡ false

-- The error of a context.
abbrev pub is_context_error : SourceError → Bool
is_context_error e = is_deadline e || is_canceled e

-- The result is not the error of a context.
abbrev pub NoContextError : Result (List Text) → Type 0
NoContextError (answered days) = Unit
NoContextError (stopped e) = is_context_error e ≡ false
NoContextError panicked = Unit

-- The attempt ran out of its time: the answer is an error, and it is that of a deadline or the
-- attempt's context is over.
abbrev pub out_of_time : Bool → List Text ⊎ SourceError → Bool
out_of_time attempt_over (inl days) = false
out_of_time attempt_over (inr e) = is_deadline e || attempt_over

abbrev pub timeout : ProviderError
timeout = failure (record { status = 0; kind = codes "attempt_timeout"; reason = [] })

module _ (settings : Settings) (start end : Text) where
  -- The loop on a turn that ran out of its time, whatever came before it, goes on to the turns after
  -- it, with the error of a timeout, or of a cooldown where the provider was not even asked.
  abbrev pub GoesOn : DaysTurn → Type 0
  GoesOn t =
      (out_of_time t.attempt_over t.answer ≡ false)
      ⊎ ((health : Map ProviderHealth) (failures : List (Text × ProviderError))
            (turns : List (Turn (List Text)))
          → (health' : Map ProviderHealth) × (e : ProviderError) × ((e ≡ cooling) ⊎ (e ≡ timeout))
            × (attempt_loop (judge_days start end) settings health failures (classified t ∷ turns)
                ≡ attempt_loop (judge_days start end) settings health'
                    (failures ++ ((t.name, e) ∷ [])) turns))
