-- ===== src/Dayrange/Execution.antt =====
-- internal/dayrange/execution.go: which stock a forecast makes executable. The prices come out of JSON,
-- in which a number is finite; one that is not positive is 0. A Go map is an association list.
pub mod Executable
use job_time_stock_watcher.Base.{
  ℕ, Bool, true, false, not, ◌&&◌, ◌||◌, List, [], ◌∷◌, Option, none, some, Text, codes, text_eq,
  Map, lookup, insert, ltb, leb, if◌then◌else◌,
}

pub record Forecast : Type 0 where
  pub reference_price : ℕ
  pub point_high : ℕ
  pub point_low : ℕ

pub record TradePlan : Type 0 where
  pub entry_price : ℕ
  pub take_profit : ℕ
  pub stop_price : ℕ

pub record RankedStock : Type 0 where
  pub code : Text
  pub plan : Option TradePlan

pub record SelectedStock : Type 0 where
  pub code : Text
  pub ranking : Option RankedStock

pub record Recommendation : Type 0 where
  pub selection_enabled : Bool
  pub execution_mode : Text
  pub ranking : List RankedStock
  pub selected : List SelectedStock

pub record ExecutionPlan : Type 0 where
  pub plan : Option TradePlan
  pub formal : Bool

-- What the card says, with the reason.
pub data Advice : Type 0 where
  no_forecast no_plan high_below_entry high_below_target not_formal low_below_stop executable :
      Advice

abbrev pub no_entry : ExecutionPlan
no_entry = record { plan = none; formal = false }

abbrev pub entry_of : Option ExecutionPlan → ExecutionPlan
entry_of none = no_entry
entry_of (some e) = e

abbrev pub with_plan : Map ExecutionPlan → Text → Option TradePlan → Map ExecutionPlan
with_plan plans code none = plans
with_plan plans code (some p) = insert code (record { plan = some p; formal = false }) plans

unfoldable pub ranked_plans : Map ExecutionPlan → List RankedStock → Map ExecutionPlan
unfolding insert
ranked_plans plans [] = plans
ranked_plans plans (c ∷ cs) = ranked_plans (with_plan plans c.code c.plan) cs

-- The plan of a selected stock, which is its own or the one before.
abbrev pub selected_plan : Option RankedStock → Option TradePlan → Option TradePlan
selected_plan none before = before
selected_plan (some r) before = elim r.plan [ none ↦ before | some p ↦ some p ]

abbrev pub has_plan : Option TradePlan → Bool
has_plan none = false
has_plan (some p) = true

abbrev pub is_live : Recommendation → Bool
is_live r = r.selection_enabled && not (text_eq r.execution_mode (codes "shadow"))

abbrev pub selected_entry : Recommendation → SelectedStock → ExecutionPlan → ExecutionPlan
selected_entry r c before =
    let plan = selected_plan c.ranking before.plan in
    record { plan = plan; formal = before.formal || has_plan plan && is_live r }

unfoldable pub selected_plans :
    Recommendation → Map ExecutionPlan → List SelectedStock → Map ExecutionPlan
unfolding insert lookup
selected_plans r plans [] = plans
selected_plans r plans (c ∷ cs) =
    selected_plans r (insert c.code (selected_entry r c (entry_of (lookup c.code plans))) plans) cs

unfoldable pub execution_plans : Recommendation → Map ExecutionPlan
unfolding ranked_plans selected_plans
execution_plans r = selected_plans r (ranked_plans [] r.ranking) r.selected

abbrev pub is_forecast : Forecast → Bool
is_forecast p = ltb 0 p.reference_price && ltb 0 p.point_high && ltb 0 p.point_low

abbrev pub is_plan : TradePlan → Bool
is_plan p = ltb 0 p.entry_price && ltb 0 p.take_profit && ltb 0 p.stop_price

abbrev pub compare_plan : Forecast → TradePlan → Bool → Advice
compare_plan f p formal =
    if leb f.point_high p.entry_price
    then high_below_entry
    else if ltb f.point_high p.take_profit
    then high_below_target
    else if not formal
    then not_formal
    else if ltb f.point_low p.stop_price
    then low_below_stop
    else executable

abbrev pub planned_status : Forecast → Option TradePlan → Bool → Advice
planned_status f none formal = no_plan
planned_status f (some p) formal = if is_plan p then compare_plan f p formal else no_plan

unfoldable pub execution_status : Option Forecast → Option TradePlan → Bool → Advice
execution_status none plan formal = no_forecast
execution_status (some f) plan formal =
    if is_forecast f then planned_status f plan formal else no_forecast
