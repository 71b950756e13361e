-- ===== src/Tests/Execution.antt =====
-- Runs of the execution cards.
use job_time_stock_watcher.Base.{
  true, false, [], ◌∷◌, none, some, Text, codes, text_eq, lookup, ◌≡◌, refl,
}
use job_time_stock_watcher.Dayrange.Execution.{
  Forecast, TradePlan, Recommendation, executable, not_formal, high_below_target, no_forecast,
  low_below_stop, entry_of, execution_plans, execution_status,
}
use job_time_stock_watcher.Dayrange.Execution.Executable.{
  IsExecutable, IsRecommended, execution_status-IsExecutable,
}

abbrev chosen_code : Text
chosen_code = codes "sh600000"

abbrev other_code : Text
other_code = codes "sz000001"

abbrev plan : TradePlan
plan = record { entry_price = 100; take_profit = 103; stop_price = 97 }

abbrev recommendation : Recommendation
recommendation = record {
  selection_enabled = true;
  execution_mode = codes "enforce";
  ranking =
      record { code = chosen_code; plan = some plan }
      ∷ record { code = other_code; plan = some plan }
      ∷ [];
  selected = record { code = chosen_code; ranking = none } ∷ [];
}

abbrev forecast : Forecast
forecast = record { reference_price = 100; point_high = 104; point_low = 98 }

chosen_executable :
    execution_status
      (some forecast)
      (entry_of (lookup chosen_code (execution_plans recommendation))).plan
      (entry_of (lookup chosen_code (execution_plans recommendation))).formal
    ≡ executable
unfolding execution_status execution_plans text_eq
chosen_executable = refl

other_only_ranked :
    execution_status
      (some forecast)
      (entry_of (lookup other_code (execution_plans recommendation))).plan
      (entry_of (lookup other_code (execution_plans recommendation))).formal
    ≡ not_formal
unfolding execution_status execution_plans text_eq
other_only_ranked = refl

shadow_is_not_formal :
    (entry_of (
      lookup chosen_code
        (execution_plans (record recommendation { execution_mode = codes "shadow" })))).formal
    ≡ false
unfolding execution_plans text_eq
shadow_is_not_formal = refl

high_too_low :
    execution_status (some (record forecast { point_high = 102 })) (some plan) true
    ≡ high_below_target
unfolding execution_status
high_too_low = refl

low_too_low :
    execution_status (some (record forecast { point_low = 96 })) (some plan) true ≡ low_below_stop
unfolding execution_status
low_too_low = refl

zero_price :
    execution_status (some (record forecast { point_low = 0 })) (some plan) true ≡ no_forecast
unfolding execution_status
zero_price = refl

execution_status-IsExecutable_example :
    IsExecutable
      (some forecast)
      (entry_of (lookup chosen_code (execution_plans recommendation))).plan
    × IsRecommended recommendation chosen_code
execution_status-IsExecutable_example =
    execution_status-IsExecutable recommendation (some forecast) chosen_code chosen_executable
