-- ===== src/Selection.antt =====
-- internal/selection/engine.go: the contract of an analysis engine. The fields that `Execute` reads and
-- those that it passes on are modelled; a candidate of a ranking is its code. Numbers of a report that
-- are only tested are natural: a negative one fails the same tests as 0.
pub mod Inputs
pub mod Results
pub mod Execution
pub mod Sets
pub mod Contract
pub mod Reports
pub mod Accepted
use job_time_stock_watcher.Base.{ℕ, Bool, List, Option, Text}
use job_time_stock_watcher.Chanlun.Input.{Float}
use job_time_stock_watcher.Market.Histories.{DayHistory}
use job_time_stock_watcher.Market.Minutes.{MinuteHistory}
use job_time_stock_watcher.Secondstage.{StageError, ModelInput, BlendPlan}

pub record Descriptor : Type 0 where
  pub id : Text
  pub version : ℕ
  pub periods : List Text
  pub adjust : Text
  pub raw_required : Bool
  pub final_only : Bool
  pub missing_policy : Text

pub record Config : Type 0 where
  pub version : ℕ
  pub data_dir : Text
  pub stocks : List Text
  pub daily_adjust : Text
  pub analysis_engine : Text
  pub strategy_enabled : Bool
  pub first_stage_enabled : Bool
  pub second_stage_enabled : Bool
  pub selection_enabled : Bool

-- `models` is none for a nil slice.
pub record Input : Type 0 where
  pub version : ℕ
  pub config : Config
  pub histories : List DayHistory
  pub raw : List DayHistory
  pub minutes : List MinuteHistory
  pub models : Option (List ModelInput)
  pub as_of : Text
  pub target : Text
  pub now : ℕ

pub record Provenance : Type 0 where
  pub engine : Descriptor
  pub config_id : Text
  pub build : Text
  pub parameters : Text

pub record FirstCandidate : Type 0 where
  pub code : Text
  pub rank : ℕ

pub record FirstReport : Type 0 where
  pub version : ℕ
  pub status : Text
  pub as_of : Text
  pub target : Text
  pub budget : ℕ
  pub candidates : List FirstCandidate

-- `percentiles` are those of the candidate's models.
pub record SecondCandidate : Type 0 where
  pub code : Text
  pub rank : ℕ
  pub first_percentile : Float
  pub percentiles : List Float
  pub blend_score : Float

pub record SecondReport : Type 0 where
  pub version : ℕ
  pub status : Text
  pub as_of : Text
  pub target : Text
  pub ranker : Text
  pub top_n : ℕ
  pub blend : BlendPlan
  pub candidates : List SecondCandidate

pub record Report : Type 0 where
  pub provenance : Option Provenance
  pub version : ℕ
  pub id : Text
  pub as_of : Text
  pub target : Text
  pub strategy : Text
  pub selection_enabled : Bool
  pub adjust : Text
  pub selected : List Text
  pub ranking : List Text
  pub first_stage : Option FirstReport
  pub second_stage : Option SecondReport

pub data ExecuteError : Type 0 where
  context_over unsupported_contract no_raw not_encoded history_identity raw_identity raw_missing
        bad_history :
      ExecuteError
  bad_minutes mixed_snapshot duplicate_period minutes_not_final : ExecuteError
  bad_models bad_blend : StageError → ExecuteError
  engine_failed : Text → ExecuteError
  result_identity selected_stock ranking_stock result_number : ExecuteError
  first_identity first_count first_not_empty first_status first_stock : ExecuteError
  second_without_first second_identity second_ranker second_count second_not_empty second_status :
      ExecuteError
  second_stock second_blend_score second_percentile : ExecuteError
