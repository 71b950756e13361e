-- ===== src/Market/Windows/Answering.antt =====
-- Which windows `FetchStatus` merges.
use job_time_stock_watcher.Base.{Bool, List, ◌∷◌, some, Text, Map, ◌≡◌}
use job_time_stock_watcher.Market.{ProviderError}
use job_time_stock_watcher.Market.Health.{ProviderHealth, Settings, available, record_result}
use job_time_stock_watcher.Market.Attempts.{Turn, Result, error_of}
use job_time_stock_watcher.Market.Statuses.{StatusAnswer, MergedWindow}
use job_time_stock_watcher.Market.Windows.{StatusWindow, status_loop}

module _ (code : Text) where
  module _ (settings : Settings) (health : Map ProviderHealth)
      (failures : List (Text × ProviderError)) (before : List StatusAnswer) (t : Turn StatusWindow)
      (turns : List (Turn StatusWindow)) where
    -- The loop from the turn on.
    from_turn : Map ProviderHealth × Result MergedWindow
    from_turn = status_loop settings code health failures before (t ∷ turns)

    -- Whether the source may be asked, and what the books hold then.
    grants : Bool × Map ProviderHealth
    grants = available t.name t.asked_at health

    -- After the answer is in the books.
    Booked : Map ProviderHealth → Type 0
    Booked h = record_result settings t.name t.answered_at (error_of t.answer) grants.1 ≡ some h
